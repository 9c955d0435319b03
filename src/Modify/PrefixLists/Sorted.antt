-- ===== src/Modify/PrefixLists/Sorted.antt =====
-- What the readers of prefix lists insert.
use flowpipeline.Base.{
  ◌+◌, List, [], ◌∷◌, Option, none, some, ◌>>=◌, ◌≡◌, refl, arith, length, length-append, All,
  All-append, Holds,
}
use flowpipeline.Modify.PrefixLists.{
  Text, Family, v4, v6, family_of, Tries, insert, no_tries, add_row, read_rows,
}

module _ {I : Type 0} where
  -- Each trie has the prefixes of its family, and the count is of both.
  abbrev pub IsSorted : Tries I → Type 0
  IsSorted t =
      All (λ e. family_of e.1 ≡ some v4) t.trie_v4
      × All (λ e. family_of e.1 ≡ some v6) t.trie_v6
      × (t.count ≡ length t.trie_v4 + length t.trie_v6)

  insert-IsSorted :
      (f : Option Family) (id : I) (prefix : Text) (t : Tries I)
      → family_of prefix ≡ f
      → IsSorted t
      → IsSorted (insert f id prefix t)
  unfolding insert
  insert-IsSorted none id prefix t e h = h
  insert-IsSorted (some v4) id prefix t e (a, b, c) = (
    All-append (λ e. family_of e.1 ≡ some v4) t.trie_v4 ((id, prefix) ∷ []) a (e, tt),
    b,
    omega (arith, c, length-append t.trie_v4 ((id, prefix) ∷ [])),
  )
  insert-IsSorted (some v6) id prefix t e (a, b, c) = (
    a,
    All-append (λ e. family_of e.1 ≡ some v6) t.trie_v6 ((id, prefix) ∷ []) b (e, tt),
    omega (arith, c, length-append t.trie_v6 ((id, prefix) ∷ [])),
  )

  add_row-IsSorted :
      (id_of : Text → Option I) (row : List Text) (t : Tries I)
      → IsSorted t
      → Holds IsSorted (add_row id_of row t)
  unfolding add_row
  add_row-IsSorted id_of [] t h = tt
  add_row-IsSorted id_of (prefix ∷ []) t h = tt
  add_row-IsSorted id_of (prefix ∷ id ∷ rest) t h = added (id_of id)
    where
      added :
          (i : Option I)
          → Holds IsSorted
              (elim i [ none ↦ some t | some i' ↦ some (insert (family_of prefix) i' prefix t) ])
      added none = h
      added (some i) = insert-IsSorted (family_of prefix) i prefix t refl h

  read_rows-IsSorted :
      (add : List Text → Tries I → Option (Tries I))
      → ((row : List Text) (t : Tries I) → IsSorted t → Holds IsSorted (add row t))
      → (rows : List (Option (List Text))) (t : Tries I) → IsSorted t
      → Holds IsSorted (read_rows add rows t)
  unfolding read_rows
  read_rows-IsSorted add k [] t h = h
  read_rows-IsSorted add k (none ∷ rows) t h = read_rows-IsSorted add k rows t h
  read_rows-IsSorted add k (some row ∷ rows) t h =
      next (add row t) (k row t h) (read_rows-IsSorted add k rows)
    where
      next :
          (result : Option (Tries I))
          → Holds IsSorted result
          → ((t' : Tries I) → IsSorted t' → Holds IsSorted (read_rows add rows t'))
          → Holds IsSorted (result >>= λ t'. read_rows add rows t')
      next none r later = tt
      next (some t') r later = later t' r

  -- From any rows, unless one without an id panics: a prefix is inserted into the trie of its
  -- family, and the count is that of the prefixes inserted.
  pub read_rows_sorts :
      (id_of : Text → Option I) (rows : List (Option (List Text)))
      → Holds IsSorted (read_rows (add_row id_of) rows no_tries)
  read_rows_sorts id_of rows =
      read_rows-IsSorted (add_row id_of) (add_row-IsSorted id_of) rows no_tries (tt, tt, refl)
