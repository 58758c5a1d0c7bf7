-- ===== src/Segment.antt =====
-- audit/src/segment.rs: what a segment is, and the details of the events of its life.
pub mod Owner
pub mod Words
mod Examples
use Prim.Native.Char.{Char, code}
use text.Mathlib.Text.{starts_with}
use riscdom.Prelude.{
  Bool, List, Option, String, [], false, if◌then◌else◌, leb, none, remove, some, str_eq, suc, zero,
  ℕ, ◌&&◌, ◌==◌, ◌||◌, ◌∷◌,
}
use riscdom.Prelude.Int.{ℤ}
use riscdom.Prelude.Text.{chars}
use riscdom.Json.{Json, opt_int, opt_str}

abbrev pub action_segment_opened : String
action_segment_opened = "host.audit.segment_opened"

abbrev pub action_segment_closed : String
action_segment_closed = "host.audit.segment_closed"

abbrev pub action_segment_merged : String
action_segment_merged = "host.audit.segment_merged"

abbrev pub action_segment_forked : String
action_segment_forked = "host.audit.segment_forked"

abbrev pub partial_merge_prefix : String
partial_merge_prefix = "merge failed after "

unfoldable pub partial_merge_recorded : String → Bool
partial_merge_recorded note = starts_with note partial_merge_prefix

pub data SegmentKind : Type 0 where
  main temporary : SegmentKind

unfoldable pub kind_as_str : SegmentKind → String
kind_as_str main = "main"
kind_as_str temporary = "temporary"

pub parse_kind : String → Option SegmentKind
parse_kind word =
    if str_eq word "main"
    then some main
    else if str_eq word "temporary"
    then some temporary
    else none

-- `open` is a reserved word here.
pub data SegmentState : Type 0 where
  opened closed folded forked : SegmentState

unfoldable pub state_as_str : SegmentState → String
state_as_str opened = "open"
state_as_str closed = "closed"
state_as_str folded = "folded"
state_as_str forked = "forked"

pub parse_state : String → Option SegmentState
parse_state word =
    if str_eq word "open"
    then some opened
    else if str_eq word "closed"
    then some closed
    else if str_eq word "folded"
    then some folded
    else if str_eq word "forked"
    then some forked
    else none

pub record Segment : Type 0 where
  pub segment_id : String
  pub kind : SegmentKind
  pub head_hash : Option String
  pub head_prev_chain : Option String
  pub head_prev_length : Option ℤ
  pub opened_at_ms : Option ℤ
  pub closed_at_ms : Option ℤ
  pub state : SegmentState
  pub note : Option String

pub data MergeOutcome : Type 0 where
  folded_outcome : (merged : ℕ) → MergeOutcome
  forked_outcome : (reason : String) → MergeOutcome

module _ {V : Type 0} ⦃json : Json V⦄ where
  unfoldable pub cleared_detail : V → V
  cleared_detail detail = json.remove "provisional" detail

  pub is_provisional : V → Bool
  is_provisional detail = elim (json.get detail "provisional") [
    | none ↦ false
    | some v ↦ elim (json.as_bool v) [ none ↦ false | some b ↦ b ]
  ]

  unfoldable pub segment_opened_detail : Segment → V
  unfolding kind_as_str
  segment_opened_detail segment = json.object (
      ("segment_id", json.str segment.segment_id)
      ∷ ("kind", json.str (kind_as_str segment.kind))
      ∷ ("head_prev_chain", opt_str segment.head_prev_chain)
      ∷ [])

  unfoldable pub segment_closed_detail : String → ℤ → V
  segment_closed_detail segment_id closed_at_ms =
      json.object
        (("segment_id", json.str segment_id) ∷ ("closed_at_ms", json.int closed_at_ms) ∷ [])

  unfoldable pub segment_forked_detail : String → SegmentKind → ℤ → String → Option ℤ → V
  unfolding kind_as_str
  segment_forked_detail segment_id kind forked_at_ms reason conflicting_event_id = json.object (
      ("segment_id", json.str segment_id)
      ∷ ("kind", json.str (kind_as_str kind))
      ∷ ("forked_at_ms", json.int forked_at_ms)
      ∷ ("reason", json.str reason)
      ∷ ("conflicting_event_id", opt_int conflicting_event_id)
      ∷ [])

  unfoldable pub segment_merged_detail : String → SegmentKind → ℤ → ℕ → V
  unfolding kind_as_str
  segment_merged_detail segment_id kind merged_at_ms event_count = json.object (
      ("segment_id", json.str segment_id)
      ∷ ("kind", json.str (kind_as_str kind))
      ∷ ("merged_at_ms", json.int merged_at_ms)
      ∷ ("event_count", json.num event_count)
      ∷ [])

abbrev pub owner_max_chars : ℕ
owner_max_chars = 48

-- `is_ascii_alphanumeric`, or one of `-`, `_` and `.`.
unfoldable pub is_safe : ℕ → Bool
is_safe c =
    leb 48 c && leb c 57
    || leb 65 c && leb c 90
    || leb 97 c && leb c 122
    || c == 45
    || c == 95
    || c == 46

-- The loop over the characters: `n` is how many more fit.
unfoldable pub safe_chars : ℕ → List Char → List Char
safe_chars zero cs = []
safe_chars (suc n) [] = []
safe_chars (suc n) (c ∷ cs) = (if is_safe (code c) then c else "_") ∷ safe_chars n cs

-- `while out.ends_with('.') { out.pop(); }`: a character goes when it is a dot and nothing after
-- it is left.
abbrev pub before : Char → List Char → List Char
before c [] = if code c == 46 then [] else c ∷ []
before c (d ∷ ds) = c ∷ d ∷ ds

unfoldable pub pop_dots : List Char → List Char
pop_dots [] = []
pop_dots (c ∷ cs) = before c (pop_dots cs)

abbrev pub or_node : List Char → List Char
or_node [] = chars "node"
or_node (c ∷ cs) = c ∷ cs

-- Texts as the list of their characters.
unfoldable pub safe_owner : List Char → List Char
unfolding safe_chars pop_dots
safe_owner owner = or_node (pop_dots (safe_chars owner_max_chars owner))
