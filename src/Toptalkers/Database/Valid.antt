-- ===== src/Toptalkers/Database/Valid.antt =====
-- The invariant of the database: its records are valid and as long as the report window.
use flowpipeline.Base.{
  ◌∙◌, Option-cases, ℕ, ◌≡◌, ◌<◌, refl, Bool, true, false, [], ◌∷◌, String, All, not, str_eq, ◌==◌,
  ◌-◌, Bool-cases, inl, inr,
}
use flowpipeline.Toptalkers.Record.{Record, new_record, append, is_empty, tick}
use flowpipeline.Toptalkers.Record.Valid.{IsValid, new_record-IsValid, append-IsValid, tick-IsValid}
use flowpipeline.Toptalkers.Database.{
  Entries, Database, find, put, update, keep, record_key, get_typed_record, append_stored, tick_all,
  clock, cleanup, MetricsParams, new_database,
}

abbrev Fits : ℕ → String × Record → Type 0
Fits n e = IsValid e.1 × (e.1.capacity ≡ n)

pub record IsWellFormed (db : Database) : Type 0 where
  pub window : 0 < db.report_buckets
  pub records : All (Fits db.report_buckets) db.database

pub new_database-IsWellFormed :
    (p : MetricsParams) → 0 < p.report_buckets → IsWellFormed (new_database p)
unfolding new_database
new_database-IsWellFormed p h = record { window = h; records = tt }

put-Fits :
    (n : ℕ) (k : String) (r : Record) (m : Entries)
    → IsValid r
    → r.capacity ≡ n
    → All (Fits n) m
    → All (Fits n) (put k r m)
unfolding put
put-Fits n k r [] v c a = ((v, c), tt)
put-Fits n k r ((j, s) ∷ m) v c a = elim (Bool-cases (str_eq j k)) [
  | inl e ↦ rw e ((v, c), a.1)
  | inr e ↦ rw e (a.0, put-Fits n k r m v c a.1)
]

update-Fits :
    (n : ℕ) (k : String) (f : Record → Record) (m : Entries)
    → ((s : String) (r : Record) → Fits n (s, r) → Fits n (s, f r))
    → All (Fits n) m
    → All (Fits n) (update k f m)
unfolding update
update-Fits n k f [] h a = tt
update-Fits n k f ((j, s) ∷ m) h a = elim (Bool-cases (str_eq j k)) [
  | inl e ↦ rw e (h j s a.0, a.1)
  | inr e ↦ rw e (a.0, update-Fits n k f m h a.1)
]

keep-Fits : (n : ℕ) (t : Record → Bool) (m : Entries) → All (Fits n) m → All (Fits n) (keep t m)
unfolding keep
keep-Fits n t [] a = tt
keep-Fits n t ((j, s) ∷ m) a = elim (Bool-cases (t s)) [
  | inl e ↦ rw e (a.0, keep-Fits n t m a.1)
  | inr e ↦ rw e (keep-Fits n t m a.1)
]

capacity-append : (r : Record) (b p : ℕ) (fwd : Bool) → (append r b p fwd).capacity ≡ r.capacity
unfolding append
capacity-append r b p true = refl
capacity-append r b p false = refl

capacity-tick :
    (average : ℕ → ℕ → ℕ) (r : Record) (n d bps pps : ℕ)
    → (tick average r n d bps pps).capacity ≡ r.capacity
unfolding tick
capacity-tick average r n d bps pps = refl

tick_all-Fits :
    (average : ℕ → ℕ → ℕ) (n : ℕ) (db : Database) (m : Entries)
    → All (Fits n) m
    → All (Fits n) (tick_all average db m)
unfolding tick_all
tick_all-Fits average n db [] a = tt
tick_all-Fits average n db ((k, r) ∷ m) a = (
  (tick-IsValid average r _ _ _ _ a.0.0, capacity-tick average r _ _ _ _ ∙ a.0.1),
  tick_all-Fits average n db m a.1,
)

new_record-Fits : (n : ℕ) (s : String) → 0 < n → Fits n (s, new_record n s)
unfolding new_record
new_record-Fits n s h = (unfold new_record in new_record-IsValid n s h, refl)

pub get_typed_record-IsWellFormed :
    (db : Database) (t a : String) → IsWellFormed db → IsWellFormed (get_typed_record db t a).1
unfolding get_typed_record
get_typed_record-IsWellFormed db t a w = elim (Option-cases (find (record_key t a) db.database)) [
  | inl e ↦
      rw (e, get_typed_record)
        (let v = new_record-Fits db.report_buckets a w.window in
          record {
            window = w.window;
            records = put-Fits db.report_buckets (record_key t a) _ db.database v.0 v.1 w.records;
          })
  | inr (r, e) ↦ rw (e, get_typed_record) w
]

pub append_stored-IsWellFormed :
    (db : Database) (key : String) (b p : ℕ) (fwd : Bool)
    → IsWellFormed db
    → IsWellFormed (append_stored db key b p fwd)
unfolding append_stored
append_stored-IsWellFormed db key b p fwd w = record {
  window = w.window;
  records =
      update-Fits db.report_buckets key (λ r. append r b p fwd) db.database
        (λ s r h. (append-IsValid r b p fwd h.0, capacity-append r b p fwd ∙ h.1)) w.records;
}

pub clock-IsWellFormed :
    (average : ℕ → ℕ → ℕ) (db : Database) → IsWellFormed db → IsWellFormed (clock average db)
unfolding clock
clock-IsWellFormed average db w = record {
  window = w.window;
  records = tick_all-Fits average db.report_buckets db db.database w.records;
}

pub cleanup-IsWellFormed : (db : Database) → IsWellFormed db → IsWellFormed (cleanup db)
unfolding cleanup
cleanup-IsWellFormed db w = elim (Bool-cases (db.cleanup_counter - 1 == 0)) [
  | inl e ↦ rw e (record {
    window = w.window;
    records = keep-Fits db.report_buckets (λ r. not (is_empty r)) db.database w.records;
  })
  | inr e ↦ rw e (record { window = w.window; records = w.records })
]
