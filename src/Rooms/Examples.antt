-- ===== src/Rooms/Examples.antt =====
-- Two rooms and a member that spends its budget (net/src/rooms.rs).
use riscdom.Prelude.{
  List, String, [], any, arith, err, false, inl, inr, insert, lookup, ok, refl, set_insert, some,
  true, ℕ, ◌-◌, ◌∷◌, ◌≡◌,
}
use riscdom.Prelude.Int.{leb_ℤ, pos, sub_i64, wrap_i64, ◌-ℤ◌}
use riscdom.Prelude.Text.{is_whitespace}
use riscdom.Rooms.{
  RateCounters, RateRule, Room, admit, allows, budget_of, charge, check_rooms, nobody, same_name,
  window_ms,
}
use riscdom.Rooms.Rates.{Message, admit_message, admitted, admitted_within, at_most, tries}

abbrev two_a_minute : RateRule
two_a_minute = record { messages = 2; window_seconds = 60 }

abbrev lab : Room
lab = record {
  name = "lab";
  members = "dev-a" ∷ "dev-b" ∷ [];
  rules = record { rate = two_a_minute; mention = nobody; require_signature = true };
}

abbrev hall : Room
hall = record lab { name = "hall" }

abbrev at_time : String → ℕ → Message
at_time member ms = record { room = "lab"; member = member; rule = two_a_minute; now = pos ms }

abbrev begun : RateCounters
begun = (admit_message (record { budgets = [] }) (at_time "dev-a" 1000)).1

abbrev talk : List Message
talk = at_time "dev-a" 2000 ∷ at_time "dev-b" 2500 ∷ at_time "dev-a" 60_999 ∷ []

begun_budget :
    budget_of begun "lab" "dev-a" ≡ some (record { used = 1; window_start_ms = pos 1000 })
unfolding admit charge allows window_ms sub_i64 wrap_i64 ◌-ℤ◌ lookup insert
begun_budget = refl

still_open_2000 : leb_ℤ (window_ms two_a_minute) (sub_i64 (pos 2000) (pos 1000)) ≡ false
unfolding window_ms sub_i64 wrap_i64 ◌-ℤ◌
still_open_2000 = refl

still_open_60999 : leb_ℤ (window_ms two_a_minute) (sub_i64 (pos 60_999) (pos 1000)) ≡ false
unfolding window_ms sub_i64 wrap_i64 ◌-ℤ◌
still_open_60999 = refl

renewed_at_61000 :
    (admit_message (admit_message begun (at_time "dev-a" 2000)).1 (at_time "dev-a" 61_000)).0
    ≡ ok tt
unfolding admit charge allows window_ms sub_i64 wrap_i64 ◌-ℤ◌ lookup insert
renewed_at_61000 = refl

admitted_within_example :
    admitted "lab" "dev-a" begun talk ≡ at_most (tries "lab" "dev-a" talk) (2 - 1)
admitted_within_example =
    admitted_within "lab" "dev-a" two_a_minute (pos 1000) begun 1 talk begun_budget (omega arith)
      (inr (refl, still_open_2000), (inl refl, (inr (refl, still_open_60999), tt)))

same_name_refused : check_rooms (lab ∷ lab ∷ []) ≡ err (same_name "lab")
unfolding check_rooms is_whitespace any set_insert
same_name_refused = refl
