-- ===== src/Toptalkers/Database/Reaches.antt =====
-- Every database that the program can reach.
use flowpipeline.Base.{ℕ, ◌<◌, Bool, String}
use flowpipeline.Toptalkers.Database.{
  MetricsParams, Database, new_database, get_typed_record, append_stored, clock, cleanup,
}
use flowpipeline.Toptalkers.Database.Valid.{
  IsWellFormed, new_database-IsWellFormed, get_typed_record-IsWellFormed,
  append_stored-IsWellFormed, clock-IsWellFormed, cleanup-IsWellFormed,
}

-- A new database, then lookups of records, traffic for the records of flows, rounds of `Clock` and
-- rounds of `Cleanup`, in any order: each takes a lock. Between the lookup for a flow and its
-- traffic there may be rounds.
pub data Reaches (average : ℕ → ℕ → ℕ) (params : MetricsParams) : Database → Type 0 where
  starts : Reaches average params (new_database params)
  looks_up :
      {db : Database} (t a : String)
      → Reaches average params db
      → Reaches average params (get_typed_record db t a).1
  appends :
      {db : Database} (key : String) (b p : ℕ) (fwd : Bool)
      → Reaches average params db
      → Reaches average params (append_stored db key b p fwd)
  ticks : {db : Database} → Reaches average params db → Reaches average params (clock average db)
  cleans : {db : Database} → Reaches average params db → Reaches average params (cleanup db)

-- With at least one report bucket, every database that is reached is well formed: each record has
-- four rings of that many buckets and a pointer into them.
pub Reaches-IsWellFormed :
    (average : ℕ → ℕ → ℕ) (params : MetricsParams) {db : Database}
    → 0 < params.report_buckets
    → Reaches average params db
    → IsWellFormed db
Reaches-IsWellFormed average params h starts = new_database-IsWellFormed params h
Reaches-IsWellFormed average params h (looks_up {db = db} t a r) =
    get_typed_record-IsWellFormed db t a (Reaches-IsWellFormed average params h r)
Reaches-IsWellFormed average params h (appends {db = db} key b p fwd r) =
    append_stored-IsWellFormed db key b p fwd (Reaches-IsWellFormed average params h r)
Reaches-IsWellFormed average params h (ticks {db = db} r) =
    clock-IsWellFormed average db (Reaches-IsWellFormed average params h r)
Reaches-IsWellFormed average params h (cleans {db = db} r) =
    cleanup-IsWellFormed db (Reaches-IsWellFormed average params h r)
