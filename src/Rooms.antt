-- ===== src/Rooms.antt =====
-- net/src/rooms.rs: rooms, the checks of a room file, the merging of a published set, and the budgets of
-- messages. A problem of a room is a constructor with the names that its sentence shows; the sentence
-- itself is not modelled, nor are the file and its version (`load_in`, `save_in`, `from_value`). The
-- proofs are in the modules below.
use Prim.Native.Char.{Char, code}
pub mod Rates
pub mod Check
pub mod Published
pub mod Merge
mod Examples
use riscdom.Prelude.{
  Bool, List, Map, Option, Result, String, [], any, contains, err, false, if◌then◌else◌, insert,
  lookup, ltb, none, not, ok, set_insert, some, str_eq, true, unwrap_or, ℕ, ◌&&◌, ◌*◌, ◌+◌, ◌==◌,
  ◌∷◌,
}
use riscdom.Prelude.Int.{leb_ℤ, pos, sub_i64, ℤ}
use riscdom.Prelude.Text.{chars, is_whitespace}

pub record RateRule : Type 0 where
  pub messages : ℕ
  pub window_seconds : ℕ

unfoldable pub allows : RateRule → ℕ → Bool
allows rule used = ltb used rule.messages

unfoldable pub window_ms : RateRule → ℤ
window_ms rule = pos (rule.window_seconds * 1000)

pub data Mention : Type 0 where
  members_only nobody : Mention

unfoldable pub mention_as_str : Mention → String
mention_as_str members_only = "members"
mention_as_str nobody = "nobody"

unfoldable pub allows_mentions : Mention → Bool
allows_mentions members_only = true
allows_mentions nobody = false

pub record RoomRules : Type 0 where
  pub rate : RateRule
  pub mention : Mention
  pub require_signature : Bool

pub record Room : Type 0 where
  pub name : String
  pub members : List String
  pub rules : RoomRules

unfoldable pub has_member : Room → String → Bool
has_member room node_id = contains room.members node_id

unfoldable pub allows_mention_from : Room → String → Bool
unfolding has_member allows_mentions
allows_mention_from room node_id = has_member room node_id && allows_mentions room.rules.mention

pub record RoomsFile : Type 0 where
  pub schema_version : ℕ
  pub rooms : List Room

-- `rooms.iter().find(|room| room.name == name)`.
unfoldable pub find_room : String → List Room → Option Room
find_room name [] = none
find_room name (room ∷ rooms) = if str_eq room.name name then some room else find_room name rooms

unfoldable pub is_configured_for : RoomsFile → String → String → Bool
unfolding find_room has_member
is_configured_for file this_node_id room = elim (find_room room file.rooms) [
  | none ↦ false
  | some found ↦ has_member found this_node_id
]

-- The names of the rooms that the node is a member of.
unfoldable pub names_for : String → List Room → List String
unfolding has_member
names_for this_node_id [] = []
names_for this_node_id (room ∷ rooms) =
    let names = names_for this_node_id rooms in
    if has_member room this_node_id then set_insert room.name names else names

unfoldable pub room_names_for : RoomsFile → String → List String
unfolding names_for
room_names_for file this_node_id = names_for this_node_id file.rooms

-- `text.trim().is_empty()`.
abbrev all_blank : List Char → Bool
all_blank [] = true
all_blank (c ∷ cs) = is_whitespace (code c) && all_blank cs

abbrev pub is_blank : String → Bool
is_blank text = all_blank (chars text)

pub data RoomProblem : Type 0 where
  empty_name : RoomProblem
  empty_member unsigned no_messages no_window same_name : (room : String) → RoomProblem

unfoldable pub validate_room : Room → Result (Unit {0}) RoomProblem
validate_room room =
    if is_blank room.name
    then err empty_name
    else if any is_blank room.members
    then err (empty_member room.name)
    else if not room.rules.require_signature
    then err (unsigned room.name)
    else if room.rules.rate.messages == 0
    then err (no_messages room.name)
    else if room.rules.rate.window_seconds == 0
    then err (no_window room.name)
    else ok tt

-- The loop, with the names so far.
unfoldable pub check_from : List String → List Room → Result (Unit {0}) RoomProblem
unfolding validate_room
check_from names [] = ok tt
check_from names (room ∷ rooms) =
    let rest = check_from (set_insert room.name names) rooms in
    elim (validate_room room) [
      | err problem ↦ err problem
      | ok done ↦ if contains names room.name then err (same_name room.name) else rest
    ]

unfoldable pub check_rooms : List Room → Result (Unit {0}) RoomProblem
unfolding check_from
check_rooms rooms = check_from [] rooms

pub record Budget : Type 0 where
  pub used : ℕ
  pub window_start_ms : ℤ

-- `HashMap<(String, String), Budget>`.
pub record RateCounters : Type 0 where
  pub budgets : Map (Map Budget)

pub record RateError : Type 0 where
  pub room : String
  pub member : String
  pub messages : ℕ
  pub window_seconds : ℕ

abbrev pub budget_of : RateCounters → String → String → Option Budget
budget_of c room member = elim (lookup room c.budgets) [
  | none ↦ none
  | some budgets ↦ lookup member budgets
]

unfoldable pub used : RateCounters → String → String → ℕ
used c room member = elim (budget_of c room member) [ none ↦ 0 | some budget ↦ budget.used ]

abbrev pub with_budget : RateCounters → String → String → Budget → RateCounters
with_budget c room member budget = record {
  budgets = insert room (insert member budget (unwrap_or (lookup room c.budgets) [])) c.budgets;
}

-- The budget after the window was started anew, if it is over.
abbrev renewed : RateRule → ℤ → Budget → Budget
renewed rule now b =
    if leb_ℤ (window_ms rule) (sub_i64 now b.window_start_ms)
    then record { used = 0; window_start_ms = now }
    else b

-- What `admit` does to the budget that it finds or makes.
unfoldable pub charge : RateRule → ℤ → Budget → Bool × Budget
unfolding allows window_ms
charge rule now b =
    if allows rule (renewed rule now b).used
    then (true, record (renewed rule now b) { used = (renewed rule now b).used + 1 })
    else (false, renewed rule now b)

unfoldable pub admit :
    RateCounters → String → String → RateRule → ℤ → Result (Unit {0}) RateError × RateCounters
unfolding charge
admit c room member rule now =
    let (admitted, budget) =
      charge rule now
        (unwrap_or (budget_of c room member) (record { used = 0; window_start_ms = now })) in
    (
      if admitted
          then ok tt
          else err (record {
            room = room;
            member = member;
            messages = rule.messages;
            window_seconds = rule.window_seconds;
          }),
      with_budget c room member budget,
    )
