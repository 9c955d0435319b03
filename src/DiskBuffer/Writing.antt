-- ===== src/DiskBuffer/Writing.antt =====
-- segments/input/diskbuffer/diskbuffer.go: the goroutines that fill and empty the buffer, the
-- decider, `WriteToDisk` and its watchdog.
use flowpipeline.Base.{
  ℕ, ◌+◌, Bool, true, false, ◌&&◌, not, List, [], ◌∷◌, ◌++◌, Option, none, some, length, ltb,
  if◌then◌else◌,
}
use flowpipeline.Flow.{Flow}
use flowpipeline.DiskBuffer.{DiskBuffer}
use flowpipeline.DiskBuffer.State.{
  testing, waiting, returned, idle, writing, reading, decider_returned, State, level, close_file,
}

-- `protojson.Marshal`, without its error.
module _ {Line : Type 0} (marshal : Flow → Option Line) (segment : DiskBuffer) where
  -- The input goroutine: `segment.MemoryBuffer <- msg` waits for room.
  unfoldable pub receive : Flow → State Line → State Line
  receive msg s =
      if s.in_open && ltb (length s.memory_buffer) segment.capacity
      then record s { memory_buffer = s.memory_buffer ++ (msg ∷ []) }
      else s

  unfoldable pub sender_test : State Line → State Line
  sender_test s = elim s.sender [
    | testing ↦ record s { sender = if s.in_open then waiting else returned }
    | waiting ↦ s
    | returned ↦ s
  ]

  unfoldable pub send_head : List Flow → State Line → State Line
  send_head [] s = s
  send_head (msg ∷ rest) s = record s {
    memory_buffer = rest;
    sender = testing;
    sent = s.sent ++ (msg ∷ []);
  }

  unfoldable pub sender_send : State Line → State Line
  unfolding send_head
  sender_send s = elim s.sender [
    | testing ↦ s
    | waiting ↦ send_head s.memory_buffer s
    | returned ↦ s
  ]

  -- The select loop of the decider. Once the input is closed, it writes without a watchdog.
  unfoldable pub decide : State Line → State Line
  decide s = elim s.decider [
    | writing i lines stop final ↦ s
    | reading names tested lines rest ↦ s
    | decider_returned ↦ s
    | idle ↦
        if s.in_open
        then (if ltb (length s.memory_buffer) (level segment.reading_memory_mark segment)
              && ltb 0 (length s.cache_files)
            then record s {
              decider = reading s.cache_files false [] none;
              stop_reading = false;
              emergency = false;
            }
            else if ltb (level segment.high_memory_mark segment) (length s.memory_buffer)
            then record s { decider = writing 0 [] false false }
            else s)
        else record s { decider = writing 0 [] false true }
  ]

  -- The end of `WriteToDisk`, after which the decider goes on, or returns if it was the last.
  unfoldable pub end_writing : Bool → List Line → State Line → State Line
  unfolding close_file
  end_writing final lines s = close_file lines (if final then decider_returned else idle) s

  unfoldable pub write_head : ℕ → List Line → Bool → Bool → List Flow → State Line → State Line
  unfolding end_writing
  write_head i lines stop final [] s = end_writing final lines s
  write_head i lines stop final (msg ∷ rest) s = elim (marshal msg) [
    | none ↦ record s { memory_buffer = rest; decider = writing (i + 1) lines stop final }
    | some line ↦ record s {
      memory_buffer = rest;
      decider = writing (i + 1) (lines ++ (line ∷ [])) stop final;
    }
  ]

  -- `WriteToDisk`: a message of a batch, or the test of the signal after the last one. The `break`
  -- after the test of the file's size leaves the select only.
  unfoldable pub write : State Line → State Line
  unfolding write_head end_writing
  write s = elim s.decider [
    | idle ↦ s
    | reading names tested lines rest ↦ s
    | decider_returned ↦ s
    | writing i lines stop final ↦
        if ltb i segment.batch_size
        then write_head i lines stop final s.memory_buffer s
        else if stop
        then end_writing final lines s
        else record s { decider = writing 0 lines stop final }
  ]

  -- `WriteWatchdogLowMemoryMark`.
  unfoldable pub write_watchdog : State Line → State Line
  write_watchdog s = elim s.decider [
    | idle ↦ s
    | reading names tested lines rest ↦ s
    | decider_returned ↦ s
    | writing i lines stop final ↦
        if not final
          && s.in_open
          && ltb (length s.memory_buffer) (level segment.low_memory_mark segment)
        then record s { decider = writing i lines true final }
        else s
  ]
