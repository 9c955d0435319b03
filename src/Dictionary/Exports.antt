-- ===== src/Dictionary/Exports.antt =====
-- The loop that exports entries keeps the keys distinct, never misses an entry, and loses nothing.
use flowpipeline.Base.{
  ℕ, ◌+◌, ◌%◌, Bool, List, [], ◌∷◌, Option, none, some, ◌≡◌, arith, All, Bool-cases, inl, inr,
  Option-cases, u64_mod,
}
use flowpipeline.Dictionary.{find, remove, put, export, export_where, held}
use flowpipeline.Dictionary.Laws.{
  AllRecords, find-AllRecords, remove-AllRecords, held-put, held-put_new, Distinct, IsEquality,
  find-remove, remove-Distinct, held-remove,
}

module _ {M : Type 0} (count : M → ℕ) where
  abbrev pub sum : List M → ℕ
  sum [] = 0
  sum (msg ∷ msgs) = count msg + sum msgs

-- The entries of a loop are those of the map as far as the loop has not come to them.
module _ {K R : Type 0} (same : K → K → Bool) (eq : IsEquality same) where
  abbrev pub Finds : List (K × R) → List (K × R) → Type 0
  Finds entries m = All (λ e. find same e.0 m ≡ some e.1) entries

  Finds-remove :
      (k : K) (entries m : List (K × R))
      → find same k entries ≡ none
      → Finds entries m
      → Finds entries (remove same k m)
  unfolding find
  Finds-remove k [] m h f = tt
  Finds-remove k ((j, s) ∷ entries) m h f = (
    ground (arith, find-remove same eq k j m, eq.1 k j, eq.0 j),
    Finds-remove k entries m (ground arith) f.1,
  )

  Finds-part :
      (entries m : List (K × R))
      → Distinct same entries
      → ((k : K) (r : R) → find same k entries ≡ some r → find same k m ≡ some r)
      → Finds entries m
  unfolding find
  Finds-part [] m d h = tt
  Finds-part ((k, r) ∷ entries) m d h = (
    ground (arith, h k r, eq.0 k),
    Finds-part entries m d.1 (λ j s e. ground (arith, h j s, eq.1 k j)),
  )

  pub Finds-self : (m : List (K × R)) → Distinct same m → Finds m m
  Finds-self m d = Finds-part m m d (λ k r e. e)

  module _ {M : Type 0} (build : R → M) (count : M → ℕ) (weight : R → ℕ) (P : R → Type 0) where
    -- What is exported and what stays count together, modulo 2^64, what was there and `n` more.
    abbrev pub Conserves : List (K × R) → ℕ → Option (List (K × R) × List M) → Type 0
    Conserves m n none = ⊥
    Conserves m n (some (m', msgs)) =
        Distinct same m'
        × AllRecords same P m'
        × ((sum count msgs + held weight m') % u64_mod ≡ (held weight m + n) % u64_mod)

    -- What is sent of a record counts what the record does.
    abbrev pub Counts : Type 0
    Counts = (r : R) → P r → count (build r) % u64_mod ≡ weight r % u64_mod

    export_where-Conserves :
        Counts
        → (test : R → Bool) (entries m : List (K × R)) → Distinct same m
        → AllRecords same P m
        → Distinct same entries
        → Finds entries m
        → Conserves m 0 (export_where same build test entries m)
    unfolding export_where export
    export_where-Conserves counts test [] m d a e h = (d, a, omega arith)
    export_where-Conserves counts test ((k, r) ∷ entries) m d a e h = elim (Bool-cases (test r)) [
      | inr f ↦ rw f (export_where-Conserves counts test entries m d a e.1 h.1)
      | inl f ↦
          rw (f, h.0)
            (first_export (export_where same build test entries (remove same k m))
              (held-remove same weight k m r h.0) (counts r (find-AllRecords same P k r m h.0 a))
              (export_where-Conserves counts test entries (remove same k m)
                (remove-Distinct same eq k m d) (remove-AllRecords same P k m a) e.1
                (Finds-remove k entries m e.0 h.1)))
    ]
      where
        first_export :
            (result : Option (List (K × R) × List M))
            → held weight m ≡ weight r + held weight (remove same k m)
            → count (build r) % u64_mod ≡ weight r % u64_mod
            → Conserves (remove same k m) 0 result
            → Conserves m 0
                (elim result [ none ↦ none | some (m'', msgs) ↦ some (m'', build r ∷ msgs) ])
        first_export none p q c = c
        first_export (some (m'', msgs)) p q (d', a', c) = (d', a', omega (arith, c, p, q))

    pub tick-Conserves :
        Counts
        → (test : R → Bool) (m : List (K × R)) → Distinct same m
        → AllRecords same P m
        → Conserves m 0 (export_where same build test m m)
    tick-Conserves counts test m d a = export_where-Conserves counts test m m d a d (Finds-self m d)

    -- A record is put into the map that counts `n` more than the one it replaces, or than none.
    pub held-put_more :
        (k : K) (r : R) (n : ℕ) (m : List (K × R))
        → ((s : R) → find same k m ≡ some s → weight r ≡ weight s + n)
        → (find same k m ≡ none → weight r ≡ n)
        → held weight (put same k r m) ≡ held weight m + n
    held-put_more k r n m old new = elim (Option-cases (find same k m)) [
      | inl e ↦ omega (arith, held-put_new same weight k r m e, new e)
      | inr (s, e) ↦ omega (arith, held-put same weight k r s m e, old s e)
    ]

    pub export-Conserves :
        Counts
        → (k : K) (r : R) (n : ℕ) (m m' : List (K × R)) → find same k m' ≡ some r
        → Distinct same m'
        → AllRecords same P m'
        → held weight m' ≡ held weight m + n
        → Conserves m n
            (elim (export same build k m') [ none ↦ none | some (m'', msg) ↦ some (m'', msg ∷ []) ])
    unfolding export
    export-Conserves counts k r n m m' f d a h = rw f (
      remove-Distinct same eq k m' d,
      remove-AllRecords same P k m' a,
      omega (
        arith,
        h,
        held-remove same weight k m' r f,
        counts r (find-AllRecords same P k r m' f a),
      ),
    )
