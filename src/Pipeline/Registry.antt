-- ===== src/Pipeline/Registry.antt =====
-- segments/segments.go: the table of segments. A result of none is `log.Fatal`, which ends the
-- program; `to_lower` is `strings.ToLower`.
use flowpipeline.Base.{
  false, List, [], ◌∷◌, Option, none, some, String, str_eq, str_eq_iff, ◌≡◌, refl, arith,
  if◌then◌else◌, Bool-cases, Option-cases, inl, inr, ◌>>=◌, ◌∙◌, subst,
}

module _ {Segment : Type 0} where
  -- `registeredSegments[name]`.
  unfoldable pub find : String → List (String × Segment) → Option Segment
  find name [] = none
  find name ((n, s) ∷ t) = if str_eq n name then some s else find name t

  abbrev unless_found : Option Segment → List (String × Segment) → Option (List (String × Segment))
  unless_found none registered = some registered
  unless_found (some s) registered = none

module _ {Segment : Type 0} (to_lower : String → String) where
  unfoldable pub register_segment :
      String → Segment → List (String × Segment) → Option (List (String × Segment))
  unfolding find
  register_segment name s registered =
      unless_found (find (to_lower name) registered) ((to_lower name, s) ∷ registered)

  unfoldable pub lookup_segment : String → List (String × Segment) → Option Segment
  unfolding find
  lookup_segment name registered = find (to_lower name) registered

  -- The calls of the `init` functions, in their order.
  unfoldable pub register_all :
      List (String × Segment) → List (String × Segment) → Option (List (String × Segment))
  unfolding register_segment
  register_all [] registered = some registered
  register_all ((name, s) ∷ segments) registered =
      register_segment name s registered >>= λ t. register_all segments t

  -- The first of the segments whose name is the given one up to case.
  abbrev pub named : String → List (String × Segment) → Option Segment
  named name [] = none
  named name ((n, s) ∷ segments) =
      if str_eq (to_lower n) (to_lower name) then some s else named name segments

  abbrev or_named : Option Segment → String → List (String × Segment) → Option Segment
  or_named none name segments = named name segments
  or_named (some s) name segments = some s

  find-register_all :
      (segments registered : List (String × Segment)) (name : String) (t : List (String × Segment))
      → register_all segments registered ≡ some t
      → find (to_lower name) t ≡ or_named (find (to_lower name) registered) name segments
  unfolding register_all register_segment find
  find-register_all [] registered name t h = ground arith
  find-register_all ((n, s) ∷ segments) registered name t h =
      let registered' = (to_lower n, s) ∷ registered in
      elim (Option-cases (find (to_lower n) registered)) [
        | inr (r, e) ↦
            let h' : none ≡ some t =
              subst (λ o. (unless_found o registered' >>= register_all segments) ≡ some t) e h in
            absurd (ground arith)
        | inl e ↦
            let h' : register_all segments registered' ≡ some t =
              subst (λ o. (unless_found o registered' >>= register_all segments) ≡ some t) e h in
            find-register_all segments registered' name t h' ∙ first e
      ]
    where
      keep :
          (found : Option Segment)
          → str_eq (to_lower n) (to_lower name) ≡ false
          → or_named found name segments ≡ or_named found name ((n, s) ∷ segments)
      keep none q = rw q refl
      keep (some x) q = refl

      first :
          find (to_lower n) registered ≡ none
          → or_named
              (if str_eq (to_lower n) (to_lower name)
                then some s
                else find (to_lower name) registered)
              name
              segments
            ≡ or_named (find (to_lower name) registered) name ((n, s) ∷ segments)
      first e = elim (Bool-cases (str_eq (to_lower n) (to_lower name))) [
        | inl q ↦
            let same : to_lower n ≡ to_lower name = (str_eq_iff (to_lower n) (to_lower name)).0 q in
            let e' : find (to_lower name) registered ≡ none =
              subst (λ x. find x registered ≡ none) same e in
            rw (q, e', q) refl
        | inr q ↦ rw q (keep (find (to_lower name) registered) q)
      ]

  -- Once all segments have registered, a lookup finds, whatever the case of the name's letters,
  -- the first of them that registered under the name, and nothing if none did.
  pub lookup-register_all :
      (segments : List (String × Segment)) (name : String) (t : List (String × Segment))
      → register_all segments [] ≡ some t
      → lookup_segment name t ≡ named name segments
  unfolding lookup_segment find
  lookup-register_all segments name t h = find-register_all segments [] name t h
