-- ===== src/Dictionary/Laws.antt =====
-- The laws of the operations on a map, and that its keys are distinct.
use flowpipeline.Base.{
  ℕ, ◌+◌, Bool, true, false, List, [], ◌∷◌, none, some, ◌≡◌, refl, arith, if◌then◌else◌, Bool-cases,
  inl, inr, All, subst,
}
use flowpipeline.Dictionary.{find, remove, put, held}

module _ {K R : Type 0} (same : K → K → Bool) where
  -- No two entries have the same key.
  abbrev pub Distinct : List (K × R) → Type 0
  Distinct [] = Unit
  Distinct ((k, r) ∷ m) = (find same k m ≡ none) × Distinct m

-- The test is an equality.
module _ {K : Type 0} (same : K → K → Bool) where
  abbrev pub IsEquality : Type 0
  IsEquality = ((k : K) → same k k ≡ true) × ((k j : K) → same k j ≡ true → k ≡ j)

module _ {K R : Type 0} (same : K → K → Bool) (eq : IsEquality same) where
  pub find-put :
      (k j : K) (r : R) (m : List (K × R))
      → find same j (put same k r m) ≡ (if same k j then some r else find same j m)
  unfolding find put
  find-put k j r [] = refl
  find-put k j r ((i, s) ∷ m) = elim (Bool-cases (same i k)) [
    | inl e ↦ rw (e, eq.1 i k e) (ground (arith, find-put k j r m))
    | inr e ↦ ground (arith, eq.1 i j, eq.1 k j, eq.0 k, eq.0 j, find-put k j r m)
  ]

  pub find-remove :
      (k j : K) (m : List (K × R))
      → same k j ≡ false
      → find same j (remove same k m) ≡ find same j m
  unfolding find remove
  find-remove k j [] h = refl
  find-remove k j ((i, s) ∷ m) h = ground (arith, eq.1 i k, find-remove k j m)

  pub put-Distinct :
      (k : K) (r : R) (m : List (K × R)) → Distinct same m → Distinct same (put same k r m)
  unfolding find put
  put-Distinct k r [] d = (refl, tt)
  put-Distinct k r ((i, s) ∷ m) d = elim (Bool-cases (same i k)) [
    | inl e ↦ rw e d
    | inr e ↦ rw e (ground (arith, find-put k i r m, eq.1 k i, eq.0 k), put-Distinct k r m d.1)
  ]

  pub remove-Distinct :
      (k : K) (m : List (K × R)) → Distinct same m → Distinct same (remove same k m)
  unfolding find remove
  remove-Distinct k [] d = tt
  remove-Distinct k ((i, s) ∷ m) d = elim (Bool-cases (same i k)) [
    | inl e ↦ rw e d.1
    | inr e ↦ rw e (ground (arith, find-remove k i m, eq.1 k i, eq.0 k), remove-Distinct k m d.1)
  ]

-- A property of every record.
module _ {K R : Type 0} (same : K → K → Bool) (P : R → Type 0) where
  abbrev pub AllRecords : List (K × R) → Type 0
  AllRecords m = All (λ e. P e.1) m

  pub find-AllRecords :
      (k : K) (r : R) (m : List (K × R)) → find same k m ≡ some r → AllRecords m → P r
  unfolding find
  find-AllRecords k r [] e h = absurd (ground arith)
  find-AllRecords k r ((j, s) ∷ m) e h = elim (Bool-cases (same j k)) [
    | inl f ↦ let e' : s ≡ r = ground (arith, e, f) in subst P e' h.0
    | inr f ↦ find-AllRecords k r m (ground (arith, e, f)) h.1
  ]

  pub put-AllRecords :
      (k : K) (r : R) (m : List (K × R)) → P r → AllRecords m → AllRecords (put same k r m)
  unfolding put
  put-AllRecords k r [] p h = (p, tt)
  put-AllRecords k r ((j, s) ∷ m) p h = elim (Bool-cases (same j k)) [
    | inl f ↦ rw f (p, h.1)
    | inr f ↦ rw f (h.0, put-AllRecords k r m p h.1)
  ]

  pub remove-AllRecords : (k : K) (m : List (K × R)) → AllRecords m → AllRecords (remove same k m)
  unfolding remove
  remove-AllRecords k [] h = tt
  remove-AllRecords k ((j, s) ∷ m) h = elim (Bool-cases (same j k)) [
    | inl f ↦ rw f h.1
    | inr f ↦ rw f (h.0, remove-AllRecords k m h.1)
  ]

module _ {K R : Type 0} (same : K → K → Bool) (weight : R → ℕ) where
  pub held-remove :
      (k : K) (m : List (K × R)) (r : R)
      → find same k m ≡ some r
      → held weight m ≡ weight r + held weight (remove same k m)
  unfolding find remove
  held-remove k [] r h = ground arith
  held-remove k ((i, s) ∷ m) r h = elim (Bool-cases (same i k)) [
    | inl e ↦ ground (arith, held-remove k m r)
    | inr e ↦ ground (arith, held-remove k m r)
  ]

  pub held-put_new :
      (k : K) (r : R) (m : List (K × R))
      → find same k m ≡ none
      → held weight (put same k r m) ≡ weight r + held weight m
  unfolding find put
  held-put_new k r [] h = ground arith
  held-put_new k r ((i, s) ∷ m) h = ground (arith, held-put_new k r m)

  pub held-put :
      (k : K) (r s : R) (m : List (K × R))
      → find same k m ≡ some s
      → held weight (put same k r m) + weight s ≡ weight r + held weight m
  unfolding find put
  held-put k r s [] h = ground arith
  held-put k r s ((i, t) ∷ m) h = ground (arith, held-put k r s m)
