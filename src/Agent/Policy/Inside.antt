-- ===== src/Agent/Policy/Inside.antt =====
-- What the policy accepts lies inside of the workspace (agent/src/policy.rs).
use Prim.Native.Char.{Char}
use riscdom.Prelude.{
  Bool-cases, List, Option-cases, Result, String, [], ap, arith, eq_iff, err, false, if◌then◌else◌,
  inl, inr, ok, refl, str_eq, sym, true, ◌++◌, ◌||◌, ◌↔◌, ◌∙◌, ◌∷◌, ◌≡◌,
}
use riscdom.Prelude.Text.{chars, of_chars, strip_prefix}
use riscdom.Agent.Config.{AgentError}
use riscdom.Agent.Policy.{
  Component, after_resolve, check_read, check_write, component_of, components, components_of,
  cur_dir, extension, first_component, has_parent, is_allowed, looks_absolute, new, normal,
  normalize, normalize_onto, parent_dir, path_starts_with, pop, resolve, root_dir, same_component,
  segments,
}
use riscdom.Agent.Policy.Extension.{IsSource, extension-IsSource}
use mathlib.Core.List.{append_assoc, append-nil}

-- The names of a path.
abbrev pub names : List Component → List Component
names [] = []
names (root_dir ∷ cs) = names cs
names (cur_dir ∷ cs) = names cs
names (parent_dir ∷ cs) = names cs
names (normal name ∷ cs) = normal name ∷ names cs

-- Where a path without `..` leads to: its names, from the root of the file system if it begins there,
-- and else from the root of the workspace.
abbrev pub target : List Component → List Component → List Component
target root path = if looks_absolute path then root_dir ∷ names path else root ++ names path

abbrev OnlyNames : List Component → Type 0
OnlyNames [] = Unit
OnlyNames (root_dir ∷ cs) = ⊥
OnlyNames (cur_dir ∷ cs) = ⊥
OnlyNames (parent_dir ∷ cs) = ⊥
OnlyNames (normal name ∷ cs) = OnlyNames cs

abbrev NoRoot : List Component → Type 0
NoRoot [] = Unit
NoRoot (root_dir ∷ cs) = ⊥
NoRoot (cur_dir ∷ cs) = NoRoot cs
NoRoot (parent_dir ∷ cs) = NoRoot cs
NoRoot (normal name ∷ cs) = NoRoot cs

-- A root is the first component, if there is one.
abbrev IsPath : List Component → Type 0
IsPath [] = Unit
IsPath (root_dir ∷ cs) = NoRoot cs
IsPath (cur_dir ∷ cs) = NoRoot cs
IsPath (parent_dir ∷ cs) = NoRoot cs
IsPath (normal name ∷ cs) = NoRoot cs

abbrev IsNormalized : List Component → Type 0
IsNormalized [] = Unit
IsNormalized (root_dir ∷ cs) = OnlyNames cs
IsNormalized (cur_dir ∷ cs) = ⊥
IsNormalized (parent_dir ∷ cs) = ⊥
IsNormalized (normal name ∷ cs) = OnlyNames cs

pop-OnlyNames : (cs : List Component) → OnlyNames cs → OnlyNames (pop cs)
unfolding pop
pop-OnlyNames [] h = tt
pop-OnlyNames (root_dir ∷ cs) h = absurd h
pop-OnlyNames (cur_dir ∷ cs) h = absurd h
pop-OnlyNames (parent_dir ∷ cs) h = absurd h
pop-OnlyNames (normal name ∷ []) h = tt
pop-OnlyNames (normal name ∷ d ∷ cs) h = pop-OnlyNames (d ∷ cs) h

pop-IsNormalized : (cs : List Component) → IsNormalized cs → IsNormalized (pop cs)
unfolding pop
pop-IsNormalized [] h = tt
pop-IsNormalized (root_dir ∷ []) h = tt
pop-IsNormalized (root_dir ∷ d ∷ cs) h = pop-OnlyNames (d ∷ cs) h
pop-IsNormalized (cur_dir ∷ cs) h = absurd h
pop-IsNormalized (parent_dir ∷ cs) h = absurd h
pop-IsNormalized (normal name ∷ []) h = tt
pop-IsNormalized (normal name ∷ d ∷ cs) h = pop-OnlyNames (d ∷ cs) h

push-OnlyNames :
    (cs : List Component) (name : String) → OnlyNames cs → OnlyNames (cs ++ normal name ∷ [])
push-OnlyNames [] name h = tt
push-OnlyNames (root_dir ∷ cs) name h = absurd h
push-OnlyNames (cur_dir ∷ cs) name h = absurd h
push-OnlyNames (parent_dir ∷ cs) name h = absurd h
push-OnlyNames (normal n ∷ cs) name h = push-OnlyNames cs name h

push-IsNormalized :
    (cs : List Component) (name : String) → IsNormalized cs → IsNormalized (cs ++ normal name ∷ [])
push-IsNormalized [] name h = tt
push-IsNormalized (root_dir ∷ cs) name h = push-OnlyNames cs name h
push-IsNormalized (cur_dir ∷ cs) name h = absurd h
push-IsNormalized (parent_dir ∷ cs) name h = absurd h
push-IsNormalized (normal n ∷ cs) name h = push-OnlyNames cs name h

normalize_onto-IsNormalized :
    (cs out : List Component) → IsNormalized out → IsNormalized (normalize_onto out cs)
unfolding normalize_onto
normalize_onto-IsNormalized [] out h = h
normalize_onto-IsNormalized (root_dir ∷ cs) out h =
    normalize_onto-IsNormalized cs (root_dir ∷ []) tt
normalize_onto-IsNormalized (cur_dir ∷ cs) out h = normalize_onto-IsNormalized cs out h
normalize_onto-IsNormalized (parent_dir ∷ cs) out h =
    normalize_onto-IsNormalized cs (pop out) (pop-IsNormalized out h)
normalize_onto-IsNormalized (normal name ∷ cs) out h =
    normalize_onto-IsNormalized cs (out ++ normal name ∷ []) (push-IsNormalized out name h)

-- Names are pushed as they are.
normalize_onto-names :
    (ns cs out : List Component)
    → OnlyNames ns
    → normalize_onto out (ns ++ cs) ≡ normalize_onto (out ++ ns) cs
unfolding normalize_onto
normalize_onto-names [] cs out h =
    ap (λ (o : List Component). normalize_onto o cs) (sym (append-nil out))
normalize_onto-names (root_dir ∷ ns) cs out h = absurd h
normalize_onto-names (cur_dir ∷ ns) cs out h = absurd h
normalize_onto-names (parent_dir ∷ ns) cs out h = absurd h
normalize_onto-names (normal name ∷ ns) cs out h =
    normalize_onto-names ns cs (out ++ normal name ∷ []) h
    ∙ ap (λ (o : List Component). normalize_onto o cs) (append_assoc out (normal name ∷ []) ns)

normalize_onto-climbless :
    (cs out : List Component)
    → NoRoot cs
    → has_parent cs ≡ false
    → normalize_onto out cs ≡ out ++ names cs
unfolding normalize_onto has_parent
normalize_onto-climbless [] out h p = sym (append-nil out)
normalize_onto-climbless (root_dir ∷ cs) out h p = absurd h
normalize_onto-climbless (cur_dir ∷ cs) out h p = normalize_onto-climbless cs out h p
normalize_onto-climbless (parent_dir ∷ cs) out h p = cc
normalize_onto-climbless (normal name ∷ cs) out h p =
    normalize_onto-climbless cs (out ++ normal name ∷ []) h p
    ∙ append_assoc out (normal name ∷ []) (names cs)

normalize_inside :
    (root cs : List Component)
    → IsNormalized root
    → NoRoot cs
    → has_parent cs ≡ false
    → normalize (root ++ cs) ≡ root ++ names cs
unfolding normalize normalize_onto
normalize_inside [] cs r h p = normalize_onto-climbless cs [] h p
normalize_inside (root_dir ∷ ns) cs r h p =
    normalize_onto-names ns cs (root_dir ∷ []) r ∙ normalize_onto-climbless cs (root_dir ∷ ns) h p
normalize_inside (cur_dir ∷ ns) cs r h p = absurd r
normalize_inside (parent_dir ∷ ns) cs r h p = absurd r
normalize_inside (normal name ∷ ns) cs r h p =
    normalize_onto-names ns cs (normal name ∷ []) r
    ∙ normalize_onto-climbless cs (normal name ∷ ns) h p

component_of-NoRoot : (s : String) (cs : List Component) → NoRoot cs → NoRoot (component_of s ++ cs)
component_of-NoRoot s cs h = elim (Bool-cases (str_eq s "" || str_eq s ".")) [
  | inl none_there ↦ rw none_there h
  | inr some_there ↦
      rw some_there (elim (Bool-cases (str_eq s "..")) [ inl up ↦ rw up h | inr down ↦ rw down h ])
]

components_of-NoRoot : (ss : List (List Char)) → NoRoot (components_of ss)
unfolding components_of
components_of-NoRoot [] = tt
components_of-NoRoot (s ∷ ss) =
    component_of-NoRoot (of_chars s) (components_of ss) (components_of-NoRoot ss)

NoRoot-IsPath : (cs : List Component) → NoRoot cs → IsPath cs
NoRoot-IsPath [] h = tt
NoRoot-IsPath (root_dir ∷ cs) h = absurd h
NoRoot-IsPath (cur_dir ∷ cs) h = h
NoRoot-IsPath (parent_dir ∷ cs) h = h
NoRoot-IsPath (normal name ∷ cs) h = h

first_component-IsPath : (ss : List (List Char)) → IsPath (first_component ss)
first_component-IsPath [] = tt
first_component-IsPath (s ∷ ss) = elim (Bool-cases (str_eq (of_chars s) ".")) [
  | inl dot ↦ rw dot (components_of-NoRoot ss)
  | inr other ↦ rw other (NoRoot-IsPath (components_of (s ∷ ss)) (components_of-NoRoot (s ∷ ss)))
]

components-IsPath : (path : String) → IsPath (components path)
unfolding components
components-IsPath path = elim (Option-cases (strip_prefix (chars "/") (chars path))) [
  | inl e ↦ rw (e, components) (first_component-IsPath (segments (chars path)))
  | inr (rest, e) ↦ rw (e, components) (components_of-NoRoot (segments rest))
]

same_component_iff : (c d : Component) → (same_component c d ≡ true) ↔ (c ≡ d)
same_component_iff root_dir root_dir = (λ h. refl, λ h. refl)
same_component_iff root_dir cur_dir = (λ h. cc, λ h. cc)
same_component_iff root_dir parent_dir = (λ h. cc, λ h. cc)
same_component_iff root_dir (normal b) = (λ h. cc, λ h. cc)
same_component_iff cur_dir root_dir = (λ h. cc, λ h. cc)
same_component_iff cur_dir cur_dir = (λ h. refl, λ h. refl)
same_component_iff cur_dir parent_dir = (λ h. cc, λ h. cc)
same_component_iff cur_dir (normal b) = (λ h. cc, λ h. cc)
same_component_iff parent_dir root_dir = (λ h. cc, λ h. cc)
same_component_iff parent_dir cur_dir = (λ h. cc, λ h. cc)
same_component_iff parent_dir parent_dir = (λ h. refl, λ h. refl)
same_component_iff parent_dir (normal b) = (λ h. cc, λ h. cc)
same_component_iff (normal a) root_dir = (λ h. cc, λ h. cc)
same_component_iff (normal a) cur_dir = (λ h. cc, λ h. cc)
same_component_iff (normal a) parent_dir = (λ h. cc, λ h. cc)
same_component_iff (normal a) (normal b) =
    (λ h. ap normal ((eq_iff a b).0 h), λ h. (eq_iff a b).1 cc)

-- One path is another and more behind it.
abbrev pub IsInside : List Component → List Component → Type 0
IsInside base path = (more : List Component) × (path ≡ base ++ more)

path_starts_with_iff :
    (path base : List Component) → (path_starts_with path base ≡ true) ↔ IsInside base path
unfolding path_starts_with
path_starts_with_iff path [] = (λ h. (path, refl), λ h. refl)
path_starts_with_iff [] (b ∷ base) = (λ h. cc, λ (more, e). cc)
path_starts_with_iff (p ∷ path) (b ∷ base) = (
  λ h.
      let same : same_component p b ≡ true = ground (arith, h) in
      let (more, e) = (path_starts_with_iff path base).0 (ground (arith, h)) in
      let q = (same_component_iff p b).0 same in (more, cc (e, q)),
  λ (more, e).
      let q : p ≡ b = cc in
      let tails : path ≡ base ++ more = cc in
      let same = (same_component_iff p b).1 q in
      let inside = (path_starts_with_iff path base).1 (more, tails) in rw same inside,
)

-- The path that `resolve` tests.
abbrev resolved : List Component → List Component → List Component
resolved root cs = if looks_absolute cs then normalize cs else normalize (root ++ cs)

resolved-target :
    (root cs : List Component)
    → IsNormalized root
    → IsPath cs
    → has_parent cs ≡ false
    → resolved root cs ≡ target root cs
unfolding normalize normalize_onto has_parent looks_absolute
resolved-target root [] r h p = normalize_inside root [] r tt p
resolved-target root (root_dir ∷ cs) r h p = normalize_onto-climbless cs (root_dir ∷ []) h p
resolved-target root (cur_dir ∷ cs) r h p = normalize_inside root (cur_dir ∷ cs) r h p
resolved-target root (parent_dir ∷ cs) r h p = cc
resolved-target root (normal name ∷ cs) r h p = normalize_inside root (normal name ∷ cs) r h p

new-IsNormalized : (root : List Component) → IsNormalized (new root).root
unfolding new normalize
new-IsNormalized root = normalize_onto-IsNormalized root [] tt

module _ (display : List Component → String) (root : List Component) (path : String)
    (abs : List Component) where
  abbrev place : List Component
  place = (new root).root

  -- What it takes for a path to be read as `abs`.
  abbrev pub IsReadable : Type 0
  IsReadable =
      (has_parent (components path) ≡ false)
      × (abs ≡ target place (components path))
      × IsInside place abs

  taken :
      resolve display (new root) (components path) ≡ ok abs
      → (has_parent (components path) ≡ false)
        × (path_starts_with (resolved place (components path)) place ≡ true)
        × (resolved place (components path) ≡ abs)
  unfolding resolve
  taken h = (ground (arith, h), ground (arith, h), ground (arith, h))

  to_take :
      has_parent (components path) ≡ false
      → path_starts_with (resolved place (components path)) place ≡ true
      → resolved place (components path) ≡ abs
      → resolve display (new root) (components path) ≡ ok abs
  unfolding resolve
  to_take p inside e = rw p (rw inside (ap ok e))

  read_iff : (check_read display (new root) (components path) ≡ ok abs) ↔ IsReadable
  unfolding check_read
  read_iff = (
    λ h.
        let (p, inside, e) = taken h in
        let at_target =
          resolved-target place (components path) (new-IsNormalized root) (components-IsPath path)
            p in
        (
          p,
          sym e ∙ at_target,
          (path_starts_with_iff abs place).0
              (ap (λ (a : List Component). path_starts_with a place) (sym e) ∙ inside),
        ),
    λ (p, e, inside).
        let at_target =
          resolved-target place (components path) (new-IsNormalized root) (components-IsPath path)
            p in
        let same = at_target ∙ sym e in
        to_take p
          (ap (λ (a : List Component). path_starts_with a place) same
            ∙ (path_starts_with_iff abs place).1 inside)
          same,
  )

  after_resolve_iff :
      (r : Result (List Component) AgentError)
      → (after_resolve (new root) r ≡ ok abs)
        ↔ ((r ≡ ok abs) × (is_allowed (new root).allowed_extensions (extension abs) ≡ true))
  after_resolve_iff (err e) = (λ h. absurd (ground (arith, h)), λ h. absurd (ground (arith, h.0)))
  after_resolve_iff (ok a) =
      elim (Bool-cases (is_allowed (new root).allowed_extensions (extension a))) [
        | inl allowed ↦ (
          λ h.
              let e : a ≡ abs = ground (arith, allowed, h) in
              (
                ap ok e,
                ap (λ (b : List Component). is_allowed (new root).allowed_extensions (extension b))
                      (sym e)
                    ∙ allowed,
              ),
          λ h. rw allowed h.0,
        )
        | inr denied ↦ (
          λ h. absurd (ground (arith, denied, h)),
          λ h. let e : a ≡ abs = ground (arith, h.0) in absurd (ground (arith, denied, e, h.1)),
        )
      ]

  -- The policy of a workspace lets the model read a path as `abs` exactly when no component of the path
  -- is `..`, `abs` is where it leads to (from the root of the file system if it is absolute, and else
  -- from the workspace), and `abs` lies inside of the workspace; and lets it write there exactly when
  -- also the last component of `abs` is a name whose last dot is not its first character, and what
  -- the name has from that dot on is, up to the case of its letters, one of `.c`, `.h`, `.S`,
  -- `.s`, `.zig` and `.rs`.
  pub policy_iff :
      ((check_read display (new root) (components path) ≡ ok abs) ↔ IsReadable)
      × ((check_write display (new root) (components path) ≡ ok abs) ↔ (IsReadable × IsSource abs))
  unfolding check_write check_read
  policy_iff =
      let written = after_resolve_iff (resolve display (new root) (components path)) in
      (
        read_iff,
        (
          λ h. (read_iff.0 (written.0 h).0, (extension-IsSource root abs).0 (written.0 h).1),
          λ h. written.1 (read_iff.1 h.0, (extension-IsSource root abs).1 h.1),
        ),
      )
