-- ===== src/Toptalkers/Database/Race.antt =====
-- A round of `Cleanup` between `GetTypedRecord` and `Append`, which do not share a lock.
use flowpipeline.Base.{ℕ, ◌≡◌, refl, Bool, false, not, [], ◌∷◌, none, String, arith}
use flowpipeline.Toptalkers.Record.{Record, new_record, append, is_empty}
use flowpipeline.Toptalkers.Record.Empty.{new_record-is_empty}
use flowpipeline.Toptalkers.Database.{
  Entries, Database, find, put, keep, record_key, get_typed_record, append_stored, cleanup,
}
use flowpipeline.Toptalkers.Database.Entries.{find-update}

find-keep-put :
    (test : Record → Bool) (k : String) (r : Record) (m : Entries)
    → test r ≡ false
    → find k m ≡ none
    → find k (keep test (put k r m)) ≡ none
unfolding find put keep
find-keep-put test k r [] t h = ground arith
find-keep-put test k r ((j, s) ∷ m) t h = ground (arith, find-keep-put test k r m)

-- The first traffic of an address is lost if a round of `Cleanup` that deletes falls between the
-- lookup and the call of `Append`: the new record still counts as empty, and afterwards the
-- database has no record of the address.
pub append_stored-lost :
    (db : Database) (t a : String) (b p : ℕ) (fwd : Bool)
    → find (record_key t a) db.database ≡ none
    → db.cleanup_counter ≡ 1
    → let looked_up = (get_typed_record db t a).1 in
      find (record_key t a) (append_stored (cleanup looked_up) (record_key t a) b p fwd).database
      ≡ none
unfolding get_typed_record cleanup append_stored
append_stored-lost db t a b p fwd h c =
    let key = record_key t a in
    let r = new_record db.report_buckets a in
    let gone : find key (keep (λ s. not (is_empty s)) (put key r db.database)) ≡ none =
      find-keep-put (λ s. not (is_empty s)) key r db.database
        (rw (new_record-is_empty db.report_buckets a) refl) h in
    ground (
      arith,
      gone,
      find-update key key (λ s. append s b p fwd)
          (keep (λ s. not (is_empty s)) (put key r db.database)),
    )
