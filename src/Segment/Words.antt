-- ===== src/Segment/Words.antt =====
-- The words that the `segments` table stores (audit/src/segment.rs).
use riscdom.Prelude.{String, arith, eq_iff, refl, some, ◌↔◌, ◌≡◌}
use riscdom.Segment.{
  SegmentKind, SegmentState, closed, folded, forked, kind_as_str, main, opened, parse_kind,
  parse_state, state_as_str, temporary,
}

kind_round : (word : String) (k : SegmentKind) → (parse_kind word ≡ some k) ↔ (word ≡ kind_as_str k)
unfolding parse_kind kind_as_str
kind_round word main =
    (λ h. ground (arith, eq_iff word "main", eq_iff word "temporary"), λ e. rw e refl)
kind_round word temporary =
    (λ h. ground (arith, eq_iff word "main", eq_iff word "temporary"), λ e. rw e refl)

state_round :
    (word : String) (s : SegmentState) → (parse_state word ≡ some s) ↔ (word ≡ state_as_str s)
unfolding parse_state state_as_str
state_round word opened = (
  λ h.
      ground (
        arith,
        eq_iff word "open",
        eq_iff word "closed",
        eq_iff word "folded",
        eq_iff word "forked",
      ),
  λ e. rw e refl,
)
state_round word closed = (
  λ h.
      ground (
        arith,
        eq_iff word "open",
        eq_iff word "closed",
        eq_iff word "folded",
        eq_iff word "forked",
      ),
  λ e. rw e refl,
)
state_round word folded = (
  λ h.
      ground (
        arith,
        eq_iff word "open",
        eq_iff word "closed",
        eq_iff word "folded",
        eq_iff word "forked",
      ),
  λ e. rw e refl,
)
state_round word forked = (
  λ h.
      ground (
        arith,
        eq_iff word "open",
        eq_iff word "closed",
        eq_iff word "folded",
        eq_iff word "forked",
      ),
  λ e. rw e refl,
)

-- A word is read as a kind, or as a state, of a segment exactly when it is the word that is written
-- for it.
pub words_round :
    ((word : String) (k : SegmentKind) → (parse_kind word ≡ some k) ↔ (word ≡ kind_as_str k))
    × ((word : String) (s : SegmentState) → (parse_state word ≡ some s) ↔ (word ≡ state_as_str s))
words_round = (kind_round, state_round)
