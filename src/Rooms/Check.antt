-- ===== src/Rooms/Check.antt =====
-- Which room files are usable (net/src/rooms.rs).
use riscdom.Prelude.{
  All, List, String, [], any, arith, contains, contains-set_insert, eq_iff, false, ok, refl,
  set_insert, true, ◌↔◌, ◌∷◌, ◌≡◌, ◌≢◌, ◌≤◌,
}
use riscdom.Rooms.{Room, check_from, check_rooms, is_blank, validate_room}

abbrev pub IsValid : Room → Type 0
IsValid room =
    (is_blank room.name ≡ false)
    × (any is_blank room.members ≡ false)
    × (room.rules.require_signature ≡ true)
    × (1 ≤ room.rules.rate.messages)
    × (1 ≤ room.rules.rate.window_seconds)

validate_room_iff : (room : Room) → (validate_room room ≡ ok tt) ↔ IsValid room
unfolding validate_room
validate_room_iff room = (
  λ h. (
    ground (arith, h),
    ground (arith, h),
    ground (arith, h),
    ground (arith, h),
    ground (arith, h),
  ),
  λ v. ground (arith, v.0, v.1, v.2, v.3, v.4),
)

-- No two rooms have one name.
abbrev pub AreDistinct : List Room → Type 0
AreDistinct [] = Unit
AreDistinct (room ∷ rooms) = All (λ r. r.name ≢ room.name) rooms × AreDistinct rooms

abbrev AreNew : List String → List Room → Type 0
AreNew names = All λ r. contains names r.name ≡ false

AreNew-set_insert :
    (name : String) (names : List String) (rooms : List Room)
    → AreNew (set_insert name names) rooms ↔ (AreNew names rooms × All (λ r. r.name ≢ name) rooms)
AreNew-set_insert name names [] = (λ h. (tt, tt), λ h. tt)
AreNew-set_insert name names (r ∷ rooms) =
    let rest = AreNew-set_insert name names rooms in
    let at_r = contains-set_insert name r.name names in
    (
      λ h. (
        (ground (arith, h.0, at_r), (rest.0 h.1).0),
        (λ e. ground (arith, h.0, at_r, eq_iff name r.name, e), (rest.0 h.1).1),
      ),
      λ g. (ground (arith, g.0.0, g.1.0, at_r, eq_iff name r.name), rest.1 (g.0.1, g.1.1)),
    )

check_from_iff :
    (names : List String) (rooms : List Room)
    → (check_from names rooms ≡ ok tt)
      ↔ (All IsValid rooms × AreNew names rooms × AreDistinct rooms)
unfolding check_from
check_from_iff names [] = (λ h. (tt, tt, tt), λ h. refl)
check_from_iff names (room ∷ rooms) =
    let rest = check_from_iff (set_insert room.name names) rooms in
    let fresh = AreNew-set_insert room.name names rooms in
    (
      λ h.
          let later : check_from (set_insert room.name names) rooms ≡ ok tt = ground (arith, h) in
          let (valid, new, distinct) = rest.0 later in
          (
            ((validate_room_iff room).0 (ground (arith, h)), valid),
            (ground (arith, h), (fresh.0 new).0),
            ((fresh.0 new).1, distinct),
          ),
      λ g. ground (
        arith,
        (validate_room_iff room).1 g.0.0,
        g.1.0,
        rest.1 (g.0.1, fresh.1 (g.1.1, g.2.0), g.2.1),
      ),
    )

no_names : (rooms : List Room) → AreNew [] rooms
no_names [] = tt
no_names (room ∷ rooms) = (refl, no_names rooms)

-- A room file is usable exactly when each of its rooms has a name and members that are not blank,
-- requires signatures, and has a budget of at least one message in at least a second, and no two of
-- its rooms have one name.
pub check_rooms_iff :
    (rooms : List Room) → (check_rooms rooms ≡ ok tt) ↔ (All IsValid rooms × AreDistinct rooms)
unfolding check_rooms
check_rooms_iff rooms = (
  λ h. let g = (check_from_iff [] rooms).0 h in (g.0, g.2),
  λ g. (check_from_iff [] rooms).1 (g.0, no_names rooms, g.1),
)
