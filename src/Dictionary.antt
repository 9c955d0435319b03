-- ===== src/Dictionary.antt =====
-- Go's maps as association lists, for a key that is compared by a Boolean test, and the loop over
-- a map that exports and deletes entries.
pub mod Laws
pub mod Exports
use flowpipeline.Base.{ℕ, ◌+◌, Bool, true, false, List, [], ◌∷◌, Option, none, some, if◌then◌else◌}

module _ {K R : Type 0} (same : K → K → Bool) where
  -- `m[key]`, `delete(m, key)` and `m[key] = r`.
  unfoldable pub find : K → List (K × R) → Option R
  find key [] = none
  find key ((k, r) ∷ m) = if same k key then some r else find key m

  unfoldable pub remove : K → List (K × R) → List (K × R)
  remove key [] = []
  remove key ((k, r) ∷ m) = if same k key then m else (k, r) ∷ remove key m

  unfoldable pub put : K → R → List (K × R) → List (K × R)
  put key r' [] = (key, r') ∷ []
  put key r' ((k, r) ∷ m) = if same k key then (k, r') ∷ m else (k, r) ∷ put key r' m

  module _ {M : Type 0} (build : R → M) where
    -- An entry is deleted and sent; none is a panic on a missing entry.
    unfoldable pub export : K → List (K × R) → Option (List (K × R) × M)
    unfolding find remove
    export key m = elim (find key m) [ none ↦ none | some r ↦ some (remove key m, build r) ]

    -- `for key, r := range m { if test(r) { export(key) } }`, over the entries that the map has
    -- when the loop starts.
    unfoldable pub export_where :
        (R → Bool) → List (K × R) → List (K × R) → Option (List (K × R) × List M)
    unfolding export
    export_where test [] m = some (m, [])
    export_where test ((key, r) ∷ entries) m =
        if test r
        then elim (export key m) [
          | none ↦ none
          | some (m', msg) ↦ elim (export_where test entries m') [
            | none ↦ none
            | some (m'', msgs) ↦ some (m'', msg ∷ msgs)
          ]
        ]
        else export_where test entries m

module _ {K R : Type 0} (weight : R → ℕ) where
  -- A number of each entry, added up.
  abbrev pub held : List (K × R) → ℕ
  held [] = 0
  held ((k, r) ∷ m) = weight r + held m
