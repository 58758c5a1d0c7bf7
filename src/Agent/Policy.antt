-- ===== src/Agent/Policy.antt =====
-- agent/src/policy.rs: which paths the model may read and write. A path is its components, as
-- `Path::components` gives them on Unix, where no path has a prefix.
pub mod Extension
pub mod Inside
mod Examples
use Prim.Native.Char.{Char, code}
use riscdom.Prelude.{
  Bool, List, Option, Result, String, [], any, err, false, if◌then◌else◌, leb, none, not, ok, some,
  str_eq, true, ℕ, ◌&&◌, ◌++◌, ◌+◌, ◌/◌, ◌==◌, ◌||◌, ◌∷◌,
}
use riscdom.Prelude.Text.{chars, concat, of_chars, strip_prefix}
use riscdom.Agent.Config.{AgentError, policy_denied, rsplit_once}

pub data Component : Type 0 where
  root_dir : Component
  cur_dir : Component
  parent_dir : Component
  normal : String → Component

abbrev pub onto_first : Char → List (List Char) → List (List Char)
onto_first c [] = (c ∷ []) ∷ []
onto_first c (s ∷ ss) = (c ∷ s) ∷ ss

-- The texts between the slashes.
unfoldable pub segments : List Char → List (List Char)
segments [] = [] ∷ []
segments (c ∷ cs) = if code c == 47 then [] ∷ segments cs else onto_first c (segments cs)

-- A segment behind the first: nothing for an empty one or a dot.
abbrev pub component_of : String → List Component
component_of s =
    if str_eq s "" || str_eq s "."
    then []
    else if str_eq s ".."
    then parent_dir ∷ []
    else normal s ∷ []

unfoldable pub components_of : List (List Char) → List Component
components_of [] = []
components_of (s ∷ ss) = component_of (of_chars s) ++ components_of ss

abbrev pub first_component : List (List Char) → List Component
first_component [] = []
first_component (s ∷ ss) =
    if str_eq (of_chars s) "." then cur_dir ∷ components_of ss else components_of (s ∷ ss)

-- `Path::components`.
unfoldable pub components : String → List Component
unfolding segments components_of
components path = elim (strip_prefix (chars "/") (chars path)) [
  | some rest ↦ root_dir ∷ components_of (segments rest)
  | none ↦ first_component (segments (chars path))
]

-- `PathBuf::pop`, which leaves a root.
unfoldable pub pop : List Component → List Component
pop [] = []
pop (root_dir ∷ []) = root_dir ∷ []
pop (cur_dir ∷ []) = []
pop (parent_dir ∷ []) = []
pop (normal name ∷ []) = []
pop (c ∷ d ∷ cs) = c ∷ pop (d ∷ cs)

-- A component that is pushed to the normalised path; a root replaces it.
unfoldable pub normalize_onto : List Component → List Component → List Component
unfolding pop
normalize_onto out [] = out
normalize_onto out (root_dir ∷ cs) = normalize_onto (root_dir ∷ []) cs
normalize_onto out (cur_dir ∷ cs) = normalize_onto out cs
normalize_onto out (parent_dir ∷ cs) = normalize_onto (pop out) cs
normalize_onto out (normal name ∷ cs) = normalize_onto (out ++ normal name ∷ []) cs

unfoldable pub normalize : List Component → List Component
unfolding normalize_onto
normalize path = normalize_onto [] path

pub record WorkspacePolicy : Type 0 where
  pub root : List Component
  pub allowed_extensions : List String

unfoldable pub new : List Component → WorkspacePolicy
unfolding normalize
new root = record {
  root = normalize root;
  allowed_extensions = ".c" ∷ ".h" ∷ ".S" ∷ ".s" ∷ ".zig" ∷ ".rs" ∷ [];
}

unfoldable pub has_parent : List Component → Bool
has_parent [] = false
has_parent (parent_dir ∷ cs) = true
has_parent (root_dir ∷ cs) = has_parent cs
has_parent (cur_dir ∷ cs) = has_parent cs
has_parent (normal name ∷ cs) = has_parent cs

unfoldable pub looks_absolute : List Component → Bool
looks_absolute [] = false
looks_absolute (root_dir ∷ cs) = true
looks_absolute (cur_dir ∷ cs) = false
looks_absolute (parent_dir ∷ cs) = false
looks_absolute (normal name ∷ cs) = false

abbrev pub same_component : Component → Component → Bool
same_component root_dir root_dir = true
same_component cur_dir cur_dir = true
same_component parent_dir parent_dir = true
same_component (normal a) (normal b) = str_eq a b
same_component c d = false

-- `Path::starts_with`.
unfoldable pub path_starts_with : List Component → List Component → Bool
path_starts_with path [] = true
path_starts_with [] (b ∷ base) = false
path_starts_with (p ∷ path) (b ∷ base) = same_component p b && path_starts_with path base

-- `Path::extension` with a dot, or the empty text.
abbrev pub extension_after : String → Option (List Char × List Char) → String
extension_after name none = ""
extension_after name (some ([], after)) = ""
extension_after name (some (c ∷ before, after)) = concat ("." ∷ of_chars after ∷ [])

unfoldable pub extension : List Component → String
unfolding rsplit_once
extension [] = ""
extension (normal name ∷ []) = extension_after name (rsplit_once 46 (chars name))
extension (root_dir ∷ []) = ""
extension (cur_dir ∷ []) = ""
extension (parent_dir ∷ []) = ""
extension (c ∷ d ∷ cs) = extension (d ∷ cs)

abbrev pub lower : ℕ → ℕ
lower c = if leb 65 c && leb c 90 then c + 32 else c

-- `str::eq_ignore_ascii_case`.
unfoldable pub eq_ignore_ascii_case : List Char → List Char → Bool
eq_ignore_ascii_case [] [] = true
eq_ignore_ascii_case [] (d ∷ ds) = false
eq_ignore_ascii_case (c ∷ cs) [] = false
eq_ignore_ascii_case (c ∷ cs) (d ∷ ds) =
    lower (code c) == lower (code d) && eq_ignore_ascii_case cs ds

unfoldable pub is_allowed : List String → String → Bool
unfolding eq_ignore_ascii_case any
is_allowed allowed ext = any (λ a. eq_ignore_ascii_case (chars a) (chars ext)) allowed

abbrev pub after_resolve :
    WorkspacePolicy → Result (List Component) AgentError → Result (List Component) AgentError
after_resolve policy (err e) = err e
after_resolve policy (ok abs) =
    let ext = extension abs in
    if not (is_allowed policy.allowed_extensions ext)
    then err (
        policy_denied
          (concat ("extension not allowed: " ∷ (if str_eq ext "" then "(none)" else ext) ∷ [])))
    else ok abs

-- What `Path::display` writes is an argument.
module _ (display : List Component → String) where
  unfoldable pub resolve : WorkspacePolicy → List Component → Result (List Component) AgentError
  unfolding has_parent looks_absolute path_starts_with normalize
  resolve policy path =
      let abs = if looks_absolute path then normalize path else normalize (policy.root ++ path) in
      if has_parent path
      then err (policy_denied (concat ("path traversal not allowed: " ∷ display path ∷ [])))
      else if not (path_starts_with abs policy.root)
      then err (policy_denied (concat ("path outside workspace: " ∷ display abs ∷ [])))
      else ok abs

  unfoldable pub check_read : WorkspacePolicy → List Component → Result (List Component) AgentError
  unfolding resolve
  check_read policy path = resolve policy path

  unfoldable pub check_write : WorkspacePolicy → List Component → Result (List Component) AgentError
  unfolding resolve
  check_write policy path = after_resolve policy (resolve policy path)
