-- ===== src/Toptalkers/Database/Entries.antt =====
-- The laws of the map of records.
use flowpipeline.Base.{
  ℕ, ◌≡◌, refl, Bool, [], ◌∷◌, Option, none, some, String, str_eq, str_eq_iff, if◌then◌else◌, arith,
}
use flowpipeline.Toptalkers.Record.{Record, new_record, append}
use flowpipeline.Toptalkers.Database.{
  Entries, Database, find, put, update, record_key, get_typed_record, append_stored, append_typed,
}

pub find-put :
    (k j : String) (r : Record) (m : Entries)
    → find j (put k r m) ≡ (if str_eq k j then some r else find j m)
unfolding find put
find-put k j r [] = refl
find-put k j r ((i, s) ∷ m) =
    ground (arith, str_eq_iff k j, str_eq_iff i k, str_eq_iff i j, find-put k j r m)

abbrev pub changed : (Record → Record) → Option Record → Option Record
changed f none = none
changed f (some r) = some (f r)

pub find-update :
    (k j : String) (f : Record → Record) (m : Entries)
    → find j (update k f m) ≡ (if str_eq k j then changed f (find j m) else find j m)
unfolding find update
find-update k j f [] = ground arith
find-update k j f ((i, s) ∷ m) =
    ground (arith, str_eq_iff k j, str_eq_iff i k, str_eq_iff i j, find-update k j f m)

-- The record of a key, or the new one that a lookup makes.
abbrev pub record_or_new : Database → String → String → Record
record_or_new db t a = elim (find (record_key t a) db.database) [
  | some r ↦ r
  | none ↦ new_record db.report_buckets a
]

-- Appending to the record of a type and an address stores, under that key, the old record (or a
-- new one, if there was none) with the traffic added, and leaves every other key as it was.
pub find-append_typed :
    (db : Database) (t a : String) (b p : ℕ) (fwd : Bool) (j : String)
    → find j (append_typed db t a b p fwd).1.database ≡ (
        if str_eq (record_key t a) j
        then some (append (record_or_new db t a) b p fwd)
        else find j db.database)
unfolding append_typed get_typed_record append_stored
find-append_typed db t a b p fwd j = ground (
  arith,
  str_eq_iff (record_key t a) j,
  find-update (record_key t a) j (λ r. append r b p fwd) db.database,
  find-update (record_key t a) j (λ r. append r b p fwd)
      (put (record_key t a) (new_record db.report_buckets a) db.database),
  find-put (record_key t a) j (new_record db.report_buckets a) db.database,
)
