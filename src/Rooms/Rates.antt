-- ===== src/Rooms/Rates.antt =====
-- How many messages a member may send (net/src/rooms.rs).
use mathlib.Core.Path.{ap₂}
use riscdom.Prelude.{
  All, Bool, Bool-cases, List, Option-cases, Result, String, [], ap, arith, eq_iff, err, false,
  if◌then◌else◌, inl, inr, insert, leb, lookup, lookup-insert, ltb, ok, refl, some, str_eq, true,
  unwrap_or, ℕ, ◌&&◌, ◌+◌, ◌-◌, ◌∙◌, ◌∷◌, ◌≡◌, ◌≤◌, ◌⊎◌,
}
use riscdom.Prelude.Int.{leb_ℤ, sub_i64, ℤ}
use riscdom.Rooms.{
  Budget, RateCounters, RateError, RateRule, admit, allows, budget_of, charge, window_ms,
  with_budget,
}

-- One message: whose, in which room, under which rule, and when.
pub record Message : Type 0 where
  pub room : String
  pub member : String
  pub rule : RateRule
  pub now : ℤ

abbrev pub admit_message : RateCounters → Message → Result (Unit {0}) RateError × RateCounters
admit_message c m = admit c m.room m.member m.rule m.now

old_budgets :
    (c : RateCounters) (room member : String)
    → lookup member (unwrap_or (lookup room c.budgets) []) ≡ budget_of c room member
unfolding lookup
old_budgets c room member = elim (Option-cases (lookup room c.budgets)) [
  | inl n ↦ rw (n, budget_of) refl
  | inr (m, e) ↦ rw (e, budget_of) refl
]

budget_of-with_budget :
    (c : RateCounters) (room member room' member' : String) (b : Budget)
    → budget_of (with_budget c room member b) room' member'
      ≡ (if str_eq room room' && str_eq member member' then some b else budget_of c room' member')
budget_of-with_budget c room member room' member' b = ground (
  arith,
  lookup-insert room room' (insert member b (unwrap_or (lookup room c.budgets) [])) c.budgets,
  lookup-insert member member' b (unwrap_or (lookup room c.budgets) []),
  old_budgets c room member',
  eq_iff room room',
)

abbrev is_ok : {A E : Type 0} → Result A E → Bool
is_ok (ok a) = true
is_ok (err e) = false

-- The budget that a message is charged to.
abbrev charged : RateCounters → Message → Bool × Budget
charged c m =
    charge m.rule m.now
      (unwrap_or (budget_of c m.room m.member) (record { used = 0; window_start_ms = m.now }))

admit-charged : (c : RateCounters) (m : Message) → is_ok (admit_message c m).0 ≡ (charged c m).0
unfolding admit
admit-charged c m = go (charged c m).0
  where
    go :
        (b : Bool)
        → is_ok {E = RateError} (
            if b
            then ok tt
            else err (record {
              room = m.room;
              member = m.member;
              messages = m.rule.messages;
              window_seconds = m.rule.window_seconds;
            }))
          ≡ b
    go true = refl
    go false = refl

admit-budget_of :
    (c : RateCounters) (m : Message) (room member : String)
    → budget_of (admit_message c m).1 room member ≡ (
        if str_eq m.room room && str_eq m.member member
        then some (charged c m).1
        else budget_of c room member)
unfolding admit
admit-budget_of c m room member =
    budget_of-with_budget c m.room m.member room member (charged c m).1

-- In a window that is open, the budget is spent until it is used up.
charge-open :
    (rule : RateRule) (now : ℤ) (b : Budget)
    → leb_ℤ (window_ms rule) (sub_i64 now b.window_start_ms) ≡ false
    → ((charge rule now b).0 ≡ ltb b.used rule.messages)
      × ((charge rule now b).1.used ≡ b.used + (if ltb b.used rule.messages then 1 else 0))
      × ((charge rule now b).1.window_start_ms ≡ b.window_start_ms)
unfolding charge allows
charge-open rule now b h = (ground (arith, h), ground (arith, h), ground (arith, h))

module _ (room member : String) where
  abbrev is_theirs : Message → Bool
  is_theirs m = str_eq m.room room && str_eq m.member member

  -- How many messages the member sends to the room, and how many of them are admitted.
  abbrev pub tries : List Message → ℕ
  tries [] = 0
  tries (m ∷ ms) = (if is_theirs m then 1 else 0) + tries ms

  abbrev pub admitted : RateCounters → List Message → ℕ
  admitted c [] = 0
  admitted c (m ∷ ms) =
      (if is_theirs m && is_ok (admit_message c m).0 then 1 else 0)
      + admitted (admit_message c m).1 ms

  -- Another's message, or one under this rule while the window that began at `start` is open.
  abbrev pub IsWithin : RateRule → ℤ → Message → Type 0
  IsWithin rule start m =
      (is_theirs m ≡ false)
      ⊎ ((m.rule ≡ rule) × (leb_ℤ (window_ms rule) (sub_i64 m.now start) ≡ false))

  charged_theirs :
      (c : RateCounters) (m : Message) (b : Budget)
      → is_theirs m ≡ true
      → budget_of c room member ≡ some b
      → charged c m ≡ charge m.rule m.now b
  charged_theirs c m b t e =
      let r : m.room ≡ room = ground (arith, t, eq_iff m.room room) in
      let k : m.member ≡ member = ground (arith, t, eq_iff m.member member) in
      let found : budget_of c m.room m.member ≡ some b = ap₂ (budget_of c) r k ∙ e in
      ap (λ o. charge m.rule m.now (unwrap_or o (record { used = 0; window_start_ms = m.now })))
        found

abbrev pub at_most : ℕ → ℕ → ℕ
at_most a b = if leb a b then a else b

-- While the window of a member's budget in a room is open, and whatever the others send meanwhile, of
-- the member's messages exactly as many are admitted as the budget has left, or all of them if they
-- are fewer.
pub admitted_within :
    (room member : String) (rule : RateRule) (start : ℤ) (c : RateCounters) (spent : ℕ)
    (ms : List Message)
    → budget_of c room member ≡ some (record { used = spent; window_start_ms = start })
    → spent ≤ rule.messages
    → All (IsWithin room member rule start) ms
    → admitted room member c ms ≡ at_most (tries room member ms) (rule.messages - spent)
admitted_within room member rule start c spent [] e h w = ground arith
admitted_within room member rule start c spent (m ∷ ms) e h (inl other, w) = ground (
  arith,
  other,
  admitted_within room member rule start (admit_message c m).1 spent ms
      (admit-budget_of c m room member ∙ rw other e) h w,
)
admitted_within room member rule start c spent (m ∷ ms) e h (inr (same, still), w) =
    elim (Bool-cases (is_theirs room member m)) [
      | inl t ↦
          let b : Budget = record { used = spent; window_start_ms = start } in
          let found : charged c m ≡ charge rule m.now b =
            charged_theirs room member c m b t e ∙ ap (λ r. charge r m.now b) same in
          let (let_in, now_used, kept) = charge-open rule m.now b still in
          let later : ℕ = spent + (if ltb spent rule.messages then 1 else 0) in
          let after : budget_of (admit_message c m).1 room member
              ≡ some (record { used = later; window_start_ms = start }) =
            admit-budget_of c m room member
            ∙ rw t (
                ap (λ (x : Bool × Budget). some x.1) found
                ∙ ap₂ (λ u w. some (record { used = u; window_start_ms = w })) now_used kept) in
          let said : is_ok (admit_message c m).0 ≡ ltb spent rule.messages =
            admit-charged c m ∙ ap (λ (x : Bool × Budget). x.0) found ∙ let_in in
          ground (
            arith,
            t,
            said,
            h,
            admitted_within room member rule start (admit_message c m).1 later ms after
                (ground (arith, h)) w,
          )
      | inr n ↦ ground (
        arith,
        n,
        admitted_within room member rule start (admit_message c m).1 spent ms
            (admit-budget_of c m room member ∙ rw n e) h w,
      )
    ]
