-- ===== src/DiskBuffer/Reading.antt =====
-- segments/input/diskbuffer/diskbuffer.go: `ReadFromDisk` and its watchdogs.
use flowpipeline.Base.{
  ℕ, Bool, true, false, ◌&&◌, ◌||◌, not, List, [], ◌∷◌, ◌++◌, Option, none, some, length, ltb, ◌==◌,
  if◌then◌else◌,
}
use flowpipeline.Flow.{Flow}
use flowpipeline.DiskBuffer.{DiskBuffer}
use flowpipeline.DiskBuffer.State.{
  idle, writing, reading, decider_returned, State, level, close_file,
}

module _ {Line : Type 0} where
  unfoldable pub find : ℕ → List (ℕ × List Line) → Option (List Line)
  find name [] = none
  find name ((n, lines) ∷ files) = if n == name then some lines else find name files

  unfoldable pub remove : ℕ → List (ℕ × List Line) → List (ℕ × List Line)
  remove name [] = []
  remove name ((n, lines) ∷ files) = if n == name then files else (n, lines) ∷ remove name files

  -- The end of `ReadFromDisk`, which closes the `rest_` file if there is one.
  unfoldable pub end_reading : Option (List Line) → State Line → State Line
  unfolding close_file
  end_reading none s = record s { decider = idle }
  end_reading (some rest) s = close_file rest idle s

  -- The goroutine that reads is at the end of a file, which it deletes: it tests the signals and
  -- opens the next file. Before the first file, and after one that is gone, it does not test them.
  unfoldable pub open_next : List ℕ → Bool → Option (List Line) → State Line → State Line
  unfolding end_reading find remove
  open_next [] tested rest s = end_reading rest s
  open_next (name ∷ names) tested rest s =
      if tested && (s.stop_reading || s.emergency)
      then end_reading rest s
      else elim (find name s.files) [
        | none ↦ record s { decider = reading names false [] rest }
        | some lines ↦ record s {
          decider = reading names tested lines rest;
          files = remove name s.files;
        }
      ]

  unfoldable pub open_file : State Line → State Line
  unfolding open_next
  open_file s = elim s.decider [
    | idle ↦ s
    | writing i lines stop final ↦ s
    | decider_returned ↦ s
    | reading names tested [] rest ↦ open_next names tested rest s
    | reading names tested (line ∷ lines) rest ↦ s
  ]

-- `protojson.Unmarshal`, without its error, and `Fprintln` of a slice of bytes.
module _ {Line : Type 0} (unmarshal : Line → Option Flow) (print_bytes : Line → Line) where
  module _ (segment : DiskBuffer) where
    -- A line that is read while there is no emergency.
    unfoldable pub pass_on : Bool → Flow → State Line → State Line → State Line
    pass_on taken msg blocked s =
        if taken
        then record s { sent = s.sent ++ (msg ∷ []) }
        else if ltb (length s.memory_buffer) segment.capacity
        then record s { memory_buffer = s.memory_buffer ++ (msg ∷ []) }
        else blocked

    -- The loop of `ReadFromDisk` receives a line. In an emergency that line is given up, and the
    -- later ones are printed to a file.
    unfoldable pub read_line :
        Bool → List ℕ → Bool → Line → List Line → Option (List Line) → State Line → State Line
    unfolding pass_on
    read_line taken names tested line lines (some rest) s = record s {
      decider = reading names tested lines (some (rest ++ (print_bytes line ∷ [])));
    }
    read_line taken names tested line lines none s =
        if s.emergency
        then record s { decider = reading names tested lines (some []) }
        else elim (unmarshal line) [
          | none ↦ record s { decider = reading names tested lines none }
          | some msg ↦ pass_on taken msg s (record s { decider = reading names tested lines none })
        ]

    unfoldable pub read : Bool → State Line → State Line
    unfolding read_line
    read taken s = elim s.decider [
      | idle ↦ s
      | writing i lines stop final ↦ s
      | decider_returned ↦ s
      | reading names tested [] rest ↦ s
      | reading names tested (line ∷ lines) rest ↦ read_line taken names tested line lines rest s
    ]

    -- `ReadWatchdogLowMemoryMark` and `ReadWatchdogHighMemoryMark`; they have returned unless
    -- something is read.
    unfoldable pub read_watchdog_low : State Line → State Line
    read_watchdog_low s =
        if ltb (level segment.low_memory_mark segment) (length s.memory_buffer)
        then record s { stop_reading = true }
        else s

    unfoldable pub read_watchdog_high : State Line → State Line
    read_watchdog_high s =
        if not s.in_open || ltb (level segment.high_memory_mark segment) (length s.memory_buffer)
        then record s { emergency = true }
        else s
