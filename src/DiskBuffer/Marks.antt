-- ===== src/DiskBuffer/Marks.antt =====
-- What `New` ensures of the options.
use native.Mathlib.Nat.{mul-le-mul_right}
use flowpipeline.Base.{
  ℕ, ◌*◌, ◌/◌, ◌≤◌, ◌<◌, Bool, false, Option, none, some, String, ℤ, pos, negsuc, ◌≡◌, refl, arith,
  Bool-cases, inl, inr, ◌>>=◌, ltb, ◌||◌, if◌then◌else◌, Holds, str_eq,
}
use flowpipeline.DiskBuffer.State.{level}
use flowpipeline.DiskBuffer.{
  DiskBuffer, Parsers, Directory, parse_mark, parse_or, at_least, check_bufferdir, marks, new,
}

abbrev pub AreLevels : DiskBuffer → Type 0
AreLevels d =
    ((10 ≤ d.high_memory_mark) × (d.high_memory_mark ≤ 95))
    × ((5 ≤ d.low_memory_mark)
        × (d.low_memory_mark ≤ 70)
        × (d.low_memory_mark ≤ d.high_memory_mark))
    × ((1 ≤ d.reading_memory_mark)
        × (d.reading_memory_mark ≤ 50)
        × (d.reading_memory_mark ≤ d.low_memory_mark))
    × ((64 ≤ d.capacity) × (d.max_cache_size ≡ 1000000000))
    × ((level d.reading_memory_mark d ≤ level d.low_memory_mark d)
        × (level d.low_memory_mark d ≤ level d.high_memory_mark d)
        × (level d.high_memory_mark d < d.capacity))

-- A mark in its range.
abbrev Within : ℕ → ℕ → ℕ → Type 0
Within low high n = (low ≤ n) × (n ≤ high)

parse_mark-Within :
    (atoi : String → Option ℤ) (given value : String) (default low high : ℕ)
    → low ≤ default
    → default ≤ high
    → Holds (Within low high) (parse_mark atoi given value default low high)
unfolding parse_mark
parse_mark-Within atoi given value default low high l h = elim (Bool-cases (str_eq given "")) [
  | inl e ↦ rw e (l, h)
  | inr e ↦ rw e (tested (atoi value))
]
  where
    tested :
        (parsed : Option ℤ)
        → Holds (Within low high) (elim parsed [
          | none ↦ none
          | some (negsuc n) ↦ none
          | some (pos n) ↦ if ltb n low || ltb high n then none else some n
        ])
    tested none = tt
    tested (some (negsuc n)) = tt
    tested (some (pos n)) = elim (Bool-cases (ltb n low || ltb high n)) [
      | inl e ↦ rw e tt
      | inr e ↦ rw e (ground arith, ground arith)
    ]

at_least_lem : (least default : ℕ) (n : ℤ) → least ≤ default → least ≤ at_least least default n
unfolding at_least
at_least_lem least default (pos n) h = ground arith
at_least_lem least default (negsuc n) h = omega (arith, h)

abbrev AreOrdered : ℕ × ℕ × ℕ → Type 0
AreOrdered (high, low, reading) =
    (10 ≤ high)
    × (high ≤ 95)
    × ((5 ≤ low) × (low ≤ 70) × (low ≤ high))
    × ((1 ≤ reading) × (reading ≤ 50) × (reading ≤ low))

level_mono : (a b c : ℕ) → a ≤ b → a * c / 100 ≤ b * c / 100
level_mono a b c h = omega (arith, mul-le-mul_right c h)

level-below : (a c : ℕ) → a ≤ 95 → 64 ≤ c → a * c / 100 < c
level-below a c h l = omega (arith, mul-le-mul_right c h, l)

module _ (p : Parsers) (directory : String → Directory) (config : String → String) where
  marks-AreOrdered : Holds AreOrdered (marks p directory config)
  unfolding marks
  marks-AreOrdered =
      ordered (parse_mark p.atoi (config "highmemorymark") (config "highmemorymark") 70 10 95)
        (parse_mark p.atoi (config "readingmemorymark") (config "highmemorymark") 5 1 50)
        (parse_mark p.atoi (config "lowmemorymark") (config "lowmemorymark") 30 5 70)
        (parse_mark-Within p.atoi (config "highmemorymark") (config "highmemorymark") 70 10 95
          (omega arith) (omega arith))
        (parse_mark-Within p.atoi (config "readingmemorymark") (config "highmemorymark") 5 1 50
          (omega arith) (omega arith))
        (parse_mark-Within p.atoi (config "lowmemorymark") (config "lowmemorymark") 30 5 70
          (omega arith) (omega arith))
    where
      ordered :
          (h r l : Option ℕ)
          → Holds (Within 10 95) h
          → Holds (Within 1 50) r
          → Holds (Within 5 70) l
          → Holds AreOrdered (
              h >>= λ high.
              (r >>= λ reading.
              (l >>= λ low.
              (if ltb high low || ltb low reading then none else some (high, low, reading)))))
      ordered none r l h r' l' = tt
      ordered (some high) none l h r' l' = tt
      ordered (some high) (some reading) none h r' l' = tt
      ordered (some high) (some reading) (some low) h r l =
          elim (Bool-cases (ltb high low || ltb low reading)) [
            | inl e ↦ rw e tt
            | inr e ↦ rw e (h.0, h.1, (l.0, l.1, ground arith), (r.0, r.1, ground arith))
          ]

  -- With any options, `New` ends the program or gives a segment whose marks are in order and in
  -- their ranges (10 to 95, 5 to 70 and 1 to 50), so that the lengths at which it reads from and writes to the disk are in that
  -- order too and the highest is below the capacity, which is 64 at least; the limit of the cache
  -- is the default.
  pub new-AreLevels : Holds AreLevels (new p directory config)
  unfolding new
  new-AreLevels =
      made (check_bufferdir p directory config) (marks p directory config)
        (parse_or p.parse_bytes (config "maxcachesize") 0)
        (parse_or p.parse_bytes (config "filesize") 50000000)
        (parse_or p.atoi (config "batchsize") (pos 128))
        (parse_or p.parse_bool (config "batchdebug") false)
        (parse_or p.parse_duration (config "queuestatusinterval") (pos 0))
        (parse_or p.atoi (config "queuesize") (pos 65536)) marks-AreOrdered
    where
      segment : (high low reading file_size : ℕ) (batch_size interval buflen : ℤ) → DiskBuffer
      segment high low reading file_size batch_size interval buflen = record {
        batch_size = at_least 0 128 batch_size;
        file_size = file_size;
        high_memory_mark = high;
        low_memory_mark = low;
        reading_memory_mark = reading;
        max_cache_size = 1000000000;
        queue_status_interval = interval;
        capacity = at_least 64 65536 buflen;
      }

      made :
          (u : Option (Unit {0})) (m : Option (ℕ × ℕ × ℕ)) (o f : Option ℕ) (b : Option ℤ)
          (d : Option Bool) (i q : Option ℤ)
          → Holds AreOrdered m
          → Holds AreLevels (
              u >>= λ u'.
              (m >>= λ (high, low, reading).
              (o >>= λ overwritten.
              (f >>= λ file_size.
              (b >>= λ batch_size.
              (d >>= λ debug.
              (i >>= λ interval.
              (q >>= λ buflen.
              some (segment high low reading file_size batch_size interval buflen)))))))))
      made none m o f b d i q h = tt
      made (some u) none o f b d i q h = tt
      made (some u) (some m) none f b d i q h = tt
      made (some u) (some m) (some o) none b d i q h = tt
      made (some u) (some m) (some o) (some f) none d i q h = tt
      made (some u) (some m) (some o) (some f) (some b) none i q h = tt
      made (some u) (some m) (some o) (some f) (some b) (some d) none q h = tt
      made (some u) (some m) (some o) (some f) (some b) (some d) (some i) none h = tt
      made (some u) (some (high, low, reading)) (some o) (some f) (some b) (some d) (some i)
            (some q) (x, x', y, z) =
          let l : 64 ≤ at_least 64 65536 q = at_least_lem 64 65536 q (omega arith) in
          (
            (x, x'),
            y,
            z,
            (l, refl),
            (
              level_mono reading low (at_least 64 65536 q) z.2,
              level_mono low high (at_least 64 65536 q) y.2,
              level-below high (at_least 64 65536 q) x' l,
            ),
          )
