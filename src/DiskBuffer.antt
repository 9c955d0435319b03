-- ===== src/DiskBuffer.antt =====
-- segments/input/diskbuffer/diskbuffer.go: the options. A result of none is `log.Fatal`, which ends
-- the program; the parsers of strconv, time and humanize are parameters, each without its error.
-- A missing option reads as the empty text.
pub mod Marks
pub mod State
pub mod Writing
pub mod Reading
pub mod Process
mod Tests
use flowpipeline.Base.{
  ℕ, ◌*◌, Bool, true, false, ◌||◌, Option, none, some, String, str_eq, ltb, ℤ, pos, negsuc,
  if◌then◌else◌, ◌>>=◌,
}

pub record DiskBuffer : Type 0 where
  pub batch_size : ℕ
  pub file_size : ℕ
  pub high_memory_mark : ℕ
  pub low_memory_mark : ℕ
  pub reading_memory_mark : ℕ
  pub max_cache_size : ℕ
  pub queue_status_interval : ℤ
  pub capacity : ℕ

-- What `os.Stat` and `unix.Access` say of the directory.
pub record Directory : Type 0 where
  pub exists_dir : Bool
  pub is_dir : Bool
  pub writeable : Bool

-- An option that must be a number in a range, or has its default if it is not given: `given` is the
-- option that is tested, and `value` the one that is parsed.
unfoldable pub parse_mark :
    (String → Option ℤ) → (given value : String) (default low high : ℕ) → Option ℕ
parse_mark atoi given value default low high =
    if str_eq given "" then some default else elim (atoi value) [
      | none ↦ none
      | some (negsuc n) ↦ none
      | some (pos n) ↦ if ltb n low || ltb high n then none else some n
    ]

-- An option that has a default if it is not given.
unfoldable pub parse_or {ℓ} : {A : Type ℓ} → (String → Option A) → String → A → Option A
parse_or parse given default = if str_eq given "" then some default else parse given

-- A number, or the default if it is too small.
unfoldable pub at_least : ℕ → ℕ → ℤ → ℕ
at_least least default (pos n) = if ltb n least then default else n
at_least least default (negsuc n) = default

-- `strconv.Atoi`, `humanize.ParseBytes`, `strconv.ParseBool` and `time.ParseDuration`.
pub record Parsers : Type 0 where
  pub atoi : String → Option ℤ
  pub parse_bytes : String → Option ℕ
  pub parse_bool : String → Option Bool
  pub parse_duration : String → Option ℤ

module _ (p : Parsers) (directory : String → Directory) (config : String → String) where
  -- The tests of `bufferdir`.
  unfoldable pub check_bufferdir : Option (Unit {0})
  check_bufferdir =
      let d : Directory = directory (config "bufferdir") in
      if str_eq (config "bufferdir") ""
      then none
      else if d.exists_dir
      then (if d.is_dir then (if d.writeable then some tt else none) else none)
      else none

  -- The three marks, and the sanity checks.
  unfoldable pub marks : Option (ℕ × ℕ × ℕ)
  unfolding parse_mark
  marks = parse_mark p.atoi (config "highmemorymark") (config "highmemorymark") 70 10 95 >>= λ high.
      (parse_mark p.atoi (config "readingmemorymark") (config "highmemorymark") 5 1 50
        >>= λ reading.
            (parse_mark p.atoi (config "lowmemorymark") (config "lowmemorymark") 30 5 70 >>= λ low.
            (if ltb high low || ltb low reading then none else some (high, low, reading))))

  unfoldable pub new : Option DiskBuffer
  unfolding parse_or check_bufferdir marks at_least
  new = check_bufferdir >>= λ u.
      (marks >>= λ (high, low, reading).
      (parse_or p.parse_bytes (config "maxcachesize") 0 >>= λ overwritten.
      (parse_or p.parse_bytes (config "filesize") 50000000 >>= λ file_size.
      (parse_or p.atoi (config "batchsize") (pos 128) >>= λ batch_size.
      (parse_or p.parse_bool (config "batchdebug") false >>= λ debug.
      (parse_or p.parse_duration (config "queuestatusinterval") (pos 0) >>= λ interval.
      (parse_or p.atoi (config "queuesize") (pos 65536) >>= λ buflen. some (record {
        batch_size = at_least 0 128 batch_size;
        file_size = file_size;
        high_memory_mark = high;
        low_memory_mark = low;
        reading_memory_mark = reading;
        max_cache_size = 1000000000;
        queue_status_interval = interval;
        capacity = at_least 64 65536 buflen;
      }))))))))
