-- ===== src/Toptalkers/Database.antt =====
-- `Database` of toptalker_database.go: the records by key. Every method of the database takes its
-- lock and every method of a record takes that of the record, so each is one step on the whole
-- state. A record is reached through its key, as the source reaches it through the pointer that
-- the map holds: only one goroutine, the loop of the segment, adds records.
pub mod Entries
pub mod Valid
pub mod Cleanup
pub mod Race
pub mod Reaches
use flowpipeline.Base.{
  ℕ, ◌+◌, ◌-◌, ◌*◌, Bool, true, false, not, List, [], ◌∷◌, map, Option, none, some, String, ◌⧺◌,
  str_eq, ==_iff, ◌==◌, if◌then◌else◌, length,
}
use flowpipeline.Toptalkers.Record.{Record, new_record, append, is_empty, tick}

-- `PrometheusMetricsParams` with the definition that it embeds. Its `int` fields are natural
-- numbers: negative values, which only the definitions of traffic-specific toptalkers in YAML could
-- give, are left out, and so is the overflow of the products of the fields.
pub record MetricsParams : Type 0 where
  pub traffic_type : String
  pub buckets : ℕ
  pub threshold_buckets : ℕ
  pub report_buckets : ℕ
  pub bucket_duration : ℕ
  pub threshold_bps : ℕ
  pub threshold_pps : ℕ
  pub relevant_address : String
  pub cleanup_window_sizes : ℕ

abbrev pub Entries : Type 0
Entries = List (String × Record)

pub record Database : Type 0 where
  pub database : Entries
  pub traffic_type : String
  pub threshold_bps : ℕ
  pub threshold_pps : ℕ
  pub buckets : ℕ
  pub bucket_duration : ℕ
  pub report_buckets : ℕ
  pub threshold_buckets : ℕ
  pub cleanup_counter : ℕ
  pub cleanup_window_sizes : ℕ
  pub db_size : ℕ  -- the gauge of the exporter

unfoldable pub new_database : MetricsParams → Database
new_database params = record {
  database = [];
  threshold_bps = params.threshold_bps;
  threshold_pps = params.threshold_pps;
  threshold_buckets = params.threshold_buckets;
  cleanup_window_sizes = params.cleanup_window_sizes;
  cleanup_counter = params.buckets * params.cleanup_window_sizes;
  buckets = params.buckets;
  report_buckets = params.report_buckets;
  traffic_type = params.traffic_type;
  bucket_duration = params.bucket_duration;
  db_size = 0;
}

-- The map: `m[key]`, `m[key] = record`, and the entries that a test keeps.
unfoldable pub find : String → Entries → Option Record
find key [] = none
find key ((k, r) ∷ m) = if str_eq k key then some r else find key m

unfoldable pub put : String → Record → Entries → Entries
put key record' [] = (key, record') ∷ []
put key record' ((k, r) ∷ m) =
    if str_eq k key then (key, record') ∷ m else (k, r) ∷ put key record' m

unfoldable pub keep : (Record → Bool) → Entries → Entries
keep test [] = []
keep test ((k, r) ∷ m) = let rest = keep test m in if test r then (k, r) ∷ rest else rest

-- `fmt.Sprintf("%s: %s", typeLabel, address)`.
abbrev pub record_key : String → String → String
record_key type_label address = type_label ⧺ ": " ⧺ address

unfoldable pub get_typed_record : Database → String → String → Record × Database
unfolding find put
get_typed_record db type_label address =
    let key = record_key type_label address in
    elim (find key db.database) [
      | some r ↦ (r, db)
      | none ↦
          let r = new_record db.report_buckets address in
          (r, record db { database = put key r db.database })
    ]

unfoldable pub get_record : Database → String → Record × Database
unfolding get_typed_record
get_record db address = get_typed_record db "" address

-- A change of the record that the map holds under a key, if it holds one.
unfoldable pub update : String → (Record → Record) → Entries → Entries
update key f [] = []
update key f ((k, r) ∷ m) = if str_eq k key then (k, f r) ∷ m else (k, r) ∷ update key f m

-- `record.Append(…)` through the pointer that `GetTypedRecord` returned for the key. It takes the
-- lock of the record only: where `Cleanup` has deleted the record meanwhile, the database stays as
-- it is and the traffic goes into a record that nothing reads.
unfoldable pub append_stored : Database → String → ℕ → ℕ → Bool → Database
unfolding update
append_stored db key bytes packets fwd = record db {
  database = update key (λ r. append r bytes packets fwd) db.database;
}

-- `db.GetTypedRecord(typeLabel, address)` and `record.Append(…)`, with nothing between the two. The
-- record is that after the call of `Append`.
unfoldable pub append_typed : Database → String → String → ℕ → ℕ → Bool → Record × Database
unfolding get_typed_record append_stored
append_typed db type_label address bytes packets fwd =
    let (r, db') = get_typed_record db type_label address in
    (
      append r bytes packets fwd,
      append_stored db' (record_key type_label address) bytes packets fwd,
    )

module _ (average : ℕ → ℕ → ℕ) where
  tick_all : Database → Entries → Entries
  tick_all db [] = []
  tick_all db ((k, r) ∷ m) =
      (k, tick average r db.threshold_buckets db.bucket_duration db.threshold_bps db.threshold_pps)
      ∷ tick_all db m

  -- One round of `Clock`.
  unfoldable pub clock : Database → Database
  unfolding tick_all
  clock db = record db { database = tick_all db db.database }

-- One round of `Cleanup`. The counter is reset when it falls to 0, so `-` does not stop short.
unfoldable pub cleanup : Database → Database
unfolding keep
cleanup db =
    let counter = db.cleanup_counter - 1 in
    let rest = keep (λ r. not (is_empty r)) db.database in
    if counter == 0
    then record db {
      cleanup_counter = db.buckets * db.cleanup_window_sizes;
      database = rest;
      db_size = length rest;
    }
    else record db { cleanup_counter = counter; db_size = length db.database }
