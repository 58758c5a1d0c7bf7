-- ===== src/Sessions/Newest.antt =====
-- A node is reached on its newest connection, as long as that one lives (net/src/relay.rs).
use mathlib.Core.Option
use riscdom.Prelude.{
  Bool-cases, List, Option, Option-cases, String, [], ap, arith, eq_iff, if◌then◌else◌, inl, inr,
  is_some, length, length-append, lookup, lookup-insert, lookup-remove, none, refl, some, str_eq,
  suc, zero, ℕ, ◌++◌, ◌+◌, ◌<◌, ◌==◌, ◌^◌, ◌∙◌, ◌∷◌, ◌≡◌, ◌≢◌, ◌⊎◌,
}
use riscdom.Sessions.{
  Connections, Event, Live, address_of, ended, get_elem?, is_present, no_connections, opened, serve,
  serve_all,
}

-- The newest connection of a node with its address, told from the events alone: the number of the
-- connection that was opened last, unless just that one has ended.
abbrev pub notes : String → ℕ → Option (ℕ × String) → Event → Option (ℕ × String)
notes k n seen (opened node_id addr) = if str_eq node_id k then some (n, addr) else seen
notes k n none (ended connection) = none
notes k n (some (m, addr)) (ended connection) = if m == connection then none else some (m, addr)

abbrev pub counted : ℕ → Event → ℕ
counted n (opened node_id addr) = n + 1
counted n (ended connection) = n

abbrev pub newest : String → ℕ → Option (ℕ × String) → List Event → Option (ℕ × String)
newest k n seen [] = seen
newest k n seen (e ∷ es) = newest k (counted n e) (notes k n seen e) es

abbrev pub openings : List Event → ℕ
openings [] = 0
openings (e ∷ es) = counted (openings es) e

abbrev session : ℕ × String → Live
session (n, addr) = record { id = n; addr = addr }

get_elem?-append_here :
    {A : Type 0} (xs : List A) (x : A) → get_elem? (xs ++ x ∷ []) (length xs) ≡ some x
get_elem?-append_here [] x = refl
get_elem?-append_here (y ∷ xs) x = get_elem?-append_here xs x

get_elem?-append :
    {A : Type 0} (xs : List A) (x : A) (i : ℕ) (y : A)
    → get_elem? xs i ≡ some y
    → get_elem? (xs ++ x ∷ []) i ≡ some y
get_elem?-append [] x i y h = absurd (ground arith)
get_elem?-append (z ∷ xs) x zero y h = h
get_elem?-append (z ∷ xs) x (suc i) y h = get_elem?-append xs x i y h

get_elem?-append_inv :
    {A : Type 0} (xs : List A) (x : A) (i : ℕ) (y : A)
    → get_elem? (xs ++ x ∷ []) i ≡ some y
    → (get_elem? xs i ≡ some y) ⊎ ((i ≡ length xs) × (x ≡ y))
get_elem?-append_inv [] x zero y h = inr (refl, ground arith)
get_elem?-append_inv [] x (suc i) y h = absurd (ground arith)
get_elem?-append_inv (z ∷ xs) x zero y h = inl h
get_elem?-append_inv (z ∷ xs) x (suc i) y h = elim (get_elem?-append_inv xs x i y h) [
  | inl a ↦ inl a
  | inr (e, f) ↦ inr (omega (arith, e), f)
]

-- Of `n` connections so far: the ids are their numbers, and `seen` is the newest of the node.
record Follows (k : String) (n : ℕ) (seen : Option (ℕ × String)) (c : Connections) : Type 0 where
  next : c.table.next_id ≡ n
  count : length c.bound ≡ n
  held : lookup k c.table.sessions ≡ Option.map session seen
  numbered : (m : ℕ) (node_id : String) (id : ℕ) → get_elem? c.bound m ≡ some (node_id, id) → id ≡ m
  mine : (m : ℕ) (addr : String) → seen ≡ some (m, addr) → get_elem? c.bound m ≡ some (k, m)

module _ (k : String) (n : ℕ) (seen : Option (ℕ × String)) (c : Connections)
    (f : Follows k n seen c) where
  opened-Follows :
      (j a : String)
      → n + 1 < 2 ^ 64
      → Follows k (n + 1) (notes k n seen (opened j a)) (serve c (opened j a))
  unfolding serve
  opened-Follows j a room = record {
    next = omega (arith, f.next);
    count = omega (arith, length-append c.bound ((j, c.table.next_id) ∷ []), f.count);
    held = rw (lookup-insert, f.next) (ground (arith, f.held));
    numbered = λ m node_id id h.
        elim (get_elem?-append_inv c.bound (j, c.table.next_id) m (node_id, id) h) [
          | inl old ↦ f.numbered m node_id id old
          | inr (last, same) ↦ cc (last, same, f.next, f.count)
        ];
    mine = λ m addr h. elim (Bool-cases (str_eq j k)) [
      | inl same ↦
          let at : m ≡ n = ground arith in
          let e : j ≡ k = (eq_iff j k).0 same in
          ground (arith, get_elem?-append_here c.bound (j, c.table.next_id), f.next, f.count, at, e)
      | inr other ↦
          get_elem?-append c.bound (j, c.table.next_id) m (k, m) (f.mine m addr (ground arith))
    ];
  }

  ended_elsewhere :
      (i m : ℕ) (a : String)
      → seen ≡ some (m, a)
      → m ≢ i
      → lookup k (serve c (ended i)).table.sessions ≡ lookup k c.table.sessions
  unfolding serve
  ended_elsewhere i m a e ne = elim (Option-cases (get_elem? c.bound i)) [
    | inl absent ↦ ground (arith, absent)
    | inr ((j, id), at_i) ↦ elim (Option-cases (lookup j c.table.sessions)) [
      | inl absent ↦ ground (arith, at_i, absent)
      | inr (live, there) ↦ ground (
        arith,
        at_i,
        there,
        f.numbered i j id at_i,
        f.held,
        e,
        lookup-remove j k c.table.sessions,
        eq_iff j k,
      )
    ]
  ]

  ended_itself :
      (i : ℕ) (a : String) → seen ≡ some (i, a) → lookup k (serve c (ended i)).table.sessions ≡ none
  unfolding serve
  ended_itself i a e =
      ground (arith, f.mine i a e, f.held, e, lookup-remove k k c.table.sessions, eq_iff k k)

  ended_unseen : (i : ℕ) → seen ≡ none → lookup k (serve c (ended i)).table.sessions ≡ none
  unfolding serve
  ended_unseen i e = elim (Option-cases (get_elem? c.bound i)) [
    | inl absent ↦ ground (arith, absent, f.held, e)
    | inr ((j, id), at_i) ↦ elim (Option-cases (lookup j c.table.sessions)) [
      | inl absent ↦ ground (arith, at_i, absent, f.held, e)
      | inr (live, there) ↦
          ground (arith, at_i, there, f.held, e, lookup-remove j k c.table.sessions, eq_iff j k)
    ]
  ]

  ended-held :
      (i : ℕ)
      → lookup k (serve c (ended i)).table.sessions ≡ Option.map session (notes k n seen (ended i))
  ended-held i = elim (Option-cases seen) [
    | inl e ↦ rw e (ended_unseen i e)
    | inr ((m, a), e) ↦ elim (Bool-cases (m == i)) [
      | inl same ↦ let at : m ≡ i = ground arith in rw e (rw same (ended_itself i a (e ∙ rw at)))
      | inr other ↦ rw e (rw other (ended_elsewhere i m a e (ground arith) ∙ f.held ∙ rw e))
    ]
  ]

  ended-next : (i : ℕ) → (serve c (ended i)).table.next_id ≡ c.table.next_id
  unfolding serve
  ended-next i = ground arith

  ended-bound : (i : ℕ) → (serve c (ended i)).bound ≡ c.bound
  unfolding serve
  ended-bound i = ground arith

  still_seen : (i m : ℕ) (a : String) → notes k n seen (ended i) ≡ some (m, a) → seen ≡ some (m, a)
  still_seen i m a h = elim (Option-cases seen) [
    | inl e ↦ absurd (ground (arith, e))
    | inr ((o, b), e) ↦ ground (arith, e)
  ]

  ended-Follows : (i : ℕ) → Follows k n (notes k n seen (ended i)) (serve c (ended i))
  ended-Follows i = record {
    next = ended-next i ∙ f.next;
    count = ap length (ended-bound i) ∙ f.count;
    held = ended-held i;
    numbered = λ m node_id id h. f.numbered m node_id id (rw ended-bound at h);
    mine = λ m a h. rw (ended-bound i) (f.mine m a (still_seen i m a h));
  }

step-Follows :
    (k : String) (n : ℕ) (seen : Option (ℕ × String)) (c : Connections) (e : Event)
    → Follows k n seen c
    → counted n e < 2 ^ 64
    → Follows k (counted n e) (notes k n seen e) (serve c e)
step-Follows k n seen c (opened node_id addr) f room = opened-Follows k n seen c f node_id addr room
step-Follows k n seen c (ended connection) f room = ended-Follows k n seen c f connection

counted-openings :
    (e : Event) (es : List Event) (n : ℕ) → counted n e + openings es ≡ n + openings (e ∷ es)
counted-openings (opened node_id addr) es n = omega arith
counted-openings (ended connection) es n = omega arith

run-Follows :
    (es : List Event) (k : String) (n : ℕ) (seen : Option (ℕ × String)) (c : Connections)
    → Follows k n seen c
    → n + openings es < 2 ^ 64
    → lookup k (serve_all c es).table.sessions ≡ Option.map session (newest k n seen es)
unfolding serve_all
run-Follows [] k n seen c f room = f.held
run-Follows (e ∷ es) k n seen c f room =
    run-Follows es k (counted n e) (notes k n seen e) (serve c e)
      (step-Follows k n seen c e f (omega (arith, counted-openings e es n)))
      (omega (arith, counted-openings e es n))

start-Follows : (k : String) → Follows k 0 none no_connections
unfolding lookup
start-Follows k = record {
  next = refl;
  count = refl;
  held = refl;
  numbered = λ m node_id id h. absurd (ground arith);
  mine = λ m a h. absurd (ground arith);
}

-- However connections are opened and end, in any order and with fewer than 2^64 of them, a node is
-- present exactly when its newest connection has not ended, and its address is the one that this
-- connection came from: the end of an older one does not take the newer away, and an older one that
-- is still open does not come back.
pub address_of-newest :
    (k : String) (es : List Event)
    → openings es < 2 ^ 64
    → (is_present (serve_all no_connections es).table k ≡ is_some (newest k 0 none es))
      × (address_of (serve_all no_connections es).table k
          ≡ Option.map (λ (c : ℕ × String). c.1) (newest k 0 none es))
unfolding is_present address_of
address_of-newest k es room =
    let held = run-Follows es k 0 none no_connections (start-Follows k) (omega arith) in
    elim (Option-cases (newest k 0 none es)) [
      | inl e ↦ (ground (arith, held, e), ground (arith, held, e))
      | inr ((m, a), e) ↦ (ground (arith, held, e), ground (arith, held, e))
    ]
