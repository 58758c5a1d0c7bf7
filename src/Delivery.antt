-- ===== src/Delivery.antt =====
-- net/src/suppression.rs: a segment as it is delivered to the centre, and the two checks of a
-- delivery. `serde_json` and the digest are parameters; what the sender makes of its rows
-- (host-core/src/state.rs) and the proofs are in the modules below.
pub mod Sender
pub mod Sort
pub mod Envelope
pub mod Linkage
pub mod Sent
mod Examples
use riscdom.Prelude.{
  Bool, List, Option, Result, String, [], err, false, if◌then◌else◌, is_some, leb, length, none,
  not, ok, some, str_eq, suc, true, unwrap_or, zero, ℕ, ◌&&◌, ◌==◌, ◌||◌, ◌∷◌,
}
use riscdom.Prelude.Int.{ℤ}
use riscdom.Json.{Json}
use riscdom.Chain.{compute_hash}

pub record SegmentEvent (V : Type 0) : Type 0 where
  pub segment_id : String
  pub centre : String
  pub index : ℕ
  pub total : ℕ
  pub ts : ℤ
  pub actor : String
  pub action : String
  pub agent_id : Option String
  pub detail : V
  pub hash : Option String
  pub prev_hash : Option String

pub record SegmentDone : Type 0 where
  pub segment_id : String
  pub centre : String
  pub total : ℕ
  pub head_prev_chain : Option String
  pub anchor_length : Option ℕ
  pub anchor_hash : Option String

pub data DeliveryProblem : Type 0 where
  not_for_this_node : (said this_node : String) → DeliveryProblem
  count_problem : (said arrived : ℕ) → DeliveryProblem
  positions_problem : (expected : ℕ) (found : List ℕ) → DeliveryProblem

-- `sort_unstable` on numbers, where the order of equal ones cannot be told.
unfoldable pub insert_sorted : ℕ → List ℕ → List ℕ
insert_sorted n [] = n ∷ []
insert_sorted n (m ∷ ms) = if leb n m then n ∷ m ∷ ms else m ∷ insert_sorted n ms

unfoldable pub sort : List ℕ → List ℕ
unfolding insert_sorted
sort [] = []
sort (n ∷ ns) = insert_sorted n (sort ns)

-- `from..from + n`.
unfoldable pub range : ℕ → ℕ → List ℕ
range from zero = []
range from (suc n) = from ∷ range (suc from) n

abbrev pub same_numbers : List ℕ → List ℕ → Bool
same_numbers [] [] = true
same_numbers [] (m ∷ ms) = false
same_numbers (n ∷ ns) [] = false
same_numbers (n ∷ ns) (m ∷ ms) = n == m && same_numbers ns ms

abbrev pub indices : {V : Type 0} → List (SegmentEvent V) → List ℕ
indices [] = []
indices (e ∷ es) = e.index ∷ indices es

unfoldable pub verify_delivery :
    {V : Type 0} → String → SegmentDone → List (SegmentEvent V) → Result (Unit {0}) DeliveryProblem
unfolding sort range
verify_delivery this_node done events =
    let found = sort (indices events) in
    if not (str_eq done.centre this_node)
    then err (not_for_this_node done.centre this_node)
    else if not (length events == done.total)
    then err (count_problem done.total (length events))
    else if not (same_numbers found (range 0 done.total))
    then err (positions_problem done.total found)
    else ok tt

-- The reason of a detail that cannot be written is the library's.
pub data LinkageProblem : Type 0 where
  no_hash : LinkageProblem
  chain_problem : (at : ℕ) (expected found : String) → LinkageProblem
  hash_problem : (at : ℕ) → LinkageProblem
  detail_problem : (at : ℕ) → LinkageProblem

abbrev pub lacks_hash : {V : Type 0} → List (SegmentEvent V) → Bool
lacks_hash [] = false
lacks_hash (e ∷ es) = not (is_some e.hash) || not (is_some e.prev_hash) || lacks_hash es

abbrev pub is_empty : {V : Type 0} → List (SegmentEvent V) → Bool
is_empty [] = true
is_empty (e ∷ es) = false

-- The event continues from the one before it, if there is one.
abbrev pub continues : Option String → String → Bool
continues none prev_hash = true
continues (some before) prev_hash = str_eq prev_hash before

module _ {V : Type 0} ⦃json : Json V⦄ (sha256_hex : String → String) where
  abbrev pub recomputes : SegmentEvent V → Option String → ℕ → Result (Unit {0}) LinkageProblem
  recomputes e none at = err (detail_problem at)
  recomputes e (some detail_json) at =
      if str_eq
        (compute_hash sha256_hex (unwrap_or e.prev_hash "") e.ts e.actor e.action detail_json)
        (unwrap_or e.hash "")
      then ok tt
      else err (hash_problem at)

  -- The loop, at position `at`, after an event with the hash `before`.
  unfoldable pub check_links :
      ℕ → Option String → List (SegmentEvent V) → Result (Unit {0}) LinkageProblem
  check_links at before [] = ok tt
  check_links at before (e ∷ es) =
      let rest = check_links (suc at) (some (unwrap_or e.hash "")) es in
      if not (continues before (unwrap_or e.prev_hash ""))
      then err (chain_problem at (unwrap_or before "") (unwrap_or e.prev_hash ""))
      else elim (recomputes e (json.to_string e.detail) at) [
        | err problem ↦ err problem
        | ok done ↦ rest
      ]

  unfoldable pub verify_linkage : List (SegmentEvent V) → Result (Unit {0}) LinkageProblem
  unfolding check_links
  verify_linkage events =
      if is_empty events || lacks_hash events then err no_hash else check_links 0 none events
