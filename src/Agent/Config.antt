-- ===== src/Agent/Config.antt =====
-- agent/src/config.rs: `AgentConfig`, when it is usable, and the endpoint; the errors of
-- agent/src/error.rs, of which those of libraries are known by their text. `{:?}` of a text is an
-- argument.
use Prim.Native.Char.{Char, code}
use riscdom.Prelude.{
  Bool, List, Option, Result, String, [], err, if◌then◌else◌, is_some, none, not, ok, some, str_eq,
  unwrap_or, ℕ, ◌&&◌, ◌==◌, ◌||◌, ◌∷◌,
}
use riscdom.Prelude.Text.{chars, concat, drop_end, drop_start, of_chars, strip_prefix, trim}

pub record AgentConfig : Type 0 where
  pub api_key : String
  pub base_url : String
  pub model : String
  pub provider_id : String
  pub max_iterations : ℕ
  pub request_timeout_secs : ℕ

pub data AgentError : Type 0 where
  config_error : (why : String) → AgentError
  http_error : (why : String) → AgentError
  api_error : (why : String) → AgentError
  json_error : (why : String) → AgentError
  io_error : (why : String) → AgentError
  policy_denied : (why : String) → AgentError
  tool_error : (why : String) → AgentError
  sandbox_error : (why : String) → AgentError
  other_error : (why : String) → AgentError

-- What `{}` writes.
unfoldable pub show_error : AgentError → String
show_error (config_error why) = concat ("config error: " ∷ why ∷ [])
show_error (http_error why) = concat ("http error: " ∷ why ∷ [])
show_error (api_error why) = concat ("api error: " ∷ why ∷ [])
show_error (json_error why) = concat ("json error: " ∷ why ∷ [])
show_error (io_error why) = concat ("io error: " ∷ why ∷ [])
show_error (policy_denied why) = concat ("policy denied: " ∷ why ∷ [])
show_error (tool_error why) = concat ("tool error: " ∷ why ∷ [])
show_error (sandbox_error why) = concat ("sandbox error: " ∷ why ∷ [])
show_error (other_error why) = why

abbrev pub starts_with : String → String → Bool
starts_with s prefix = is_some (strip_prefix (chars prefix) (chars s))

-- What follows the first occurrence of a text, and everything if there is none.
unfoldable pub after_first : List Char → List Char → Option (List Char)
unfolding strip_prefix
after_first sep [] = strip_prefix sep []
after_first sep (c ∷ cs) =
    let later = after_first sep cs in
    elim (strip_prefix sep (c ∷ cs)) [ some rest ↦ some rest | none ↦ later ]

-- What precedes the first character of these, or everything.
unfoldable pub before_any : (Char → Bool) → List Char → List Char
before_any stops [] = []
before_any stops (c ∷ cs) = if stops c then [] else c ∷ before_any stops cs

-- `str::rsplit_once` at a character.
unfoldable pub rsplit_once : ℕ → List Char → Option (List Char × List Char)
rsplit_once at [] = none
rsplit_once at (c ∷ cs) = elim (rsplit_once at cs) [
  | some (before, after) ↦ some (c ∷ before, after)
  | none ↦ if code c == at then some ([], cs) else none
]

-- The authority of a URL, less the user's part.
unfoldable pub host_port : String → List Char
unfolding after_first before_any rsplit_once
host_port url =
    let rest = unwrap_or (after_first (chars "://") (chars url)) (chars url) in
    let authority = before_any (λ c. code c == 47 || code c == 63 || code c == 35) rest in
    elim (rsplit_once 64 authority) [ none ↦ authority | some (user, host) ↦ host ]

-- `host_of` of agent/src/audit_hook.rs.
unfoldable pub host_of : String → String
unfolding host_port
host_of url = of_chars (host_port url)

unfoldable pub is_local_url : String → Bool
unfolding host_port drop_start drop_end
is_local_url url =
    let authority = host_port url in
    let bracketed : List Char = elim (rsplit_once 58 authority) [
      | none ↦ authority
      | some (host, port) ↦ host
    ] in
    let host = of_chars (drop_end (λ c. code c == 93) (drop_start (λ c. code c == 91) bracketed)) in
    str_eq host "localhost" || str_eq host "127.0.0.1" || str_eq host "::1" || str_eq host "0.0.0.0"

unfoldable pub validate : (String → String) → AgentConfig → Result (Unit {0}) AgentError
unfolding is_local_url strip_prefix
validate show_str config =
    let base = trim config.base_url in
    if not (starts_with base "http://" || starts_with base "https://")
    then err (
        config_error (
          concat ("base_url must start with http:// or https:// (got " ∷ show_str base ∷ ")" ∷ [])))
    else if str_eq (trim config.model) ""
    then err (config_error "model must not be empty")
    else if not (is_local_url base) && str_eq (trim config.api_key) ""
    then err (config_error "api_key is required for non-local base_url")
    else ok tt

-- `AgentConfig::endpoint`.
pub endpoint : AgentConfig → String
unfolding drop_end
endpoint config =
    concat
      (of_chars (drop_end (λ c. code c == 47) (chars config.base_url)) ∷ "/chat/completions" ∷ [])

abbrev pub deepseek_default : AgentConfig
deepseek_default = record {
  api_key = "";
  base_url = "https://api.deepseek.com";
  model = "deepseek-chat";
  provider_id = "deepseek";
  max_iterations = 10;
  request_timeout_secs = 120;
}
