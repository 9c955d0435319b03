-- ===== src/DiskBuffer/Process.antt =====
-- segments/input/diskbuffer/diskbuffer.go: `Run` and its goroutines, as the events in which they
-- change what they share. An event that cannot happen changes nothing. The sleeps and the
-- interval of the watcher are left to the order of the events; errors of the file system are not
-- modelled.
pub mod Held
pub mod Writes
pub mod Reads
pub mod Conserves
pub mod Stuck
use flowpipeline.Base.{
  ℕ, zero, suc, ◌+◌, ◌*◌, ◌/◌, Bool, true, false, ◌&&◌, ◌||◌, not, List, [], ◌∷◌, ◌++◌, Option,
  none, some, length, ltb, leb, ◌==◌, if◌then◌else◌, map,
}
use flowpipeline.Flow.{Flow}
use flowpipeline.DiskBuffer.{DiskBuffer}
use flowpipeline.DiskBuffer.State.{
  Sender, testing, waiting, returned, Decider, idle, writing, reading, decider_returned, State,
  level, start, close_file,
}
use flowpipeline.DiskBuffer.Writing.{
  receive, sender_test, sender_send, decide, write, write_watchdog,
}
use flowpipeline.DiskBuffer.Reading.{open_file, read, read_watchdog_low, read_watchdog_high}

pub data Event : Type 0 where
  receives : Flow → Event
  closes : Event
  sender_tests sender_sends : Event
  globs : Event
  decides : Event
  writes : Event
  write_low_mark : Event
  opens : Event
  reads : Bool → Event  -- whether `Out` takes the message within 10 ms
  read_low_mark read_high_mark : Event

-- `protojson.Marshal` and `Unmarshal`, without their errors, and `Fprintln` of a slice of bytes.
module _ {Line : Type 0} (marshal : Flow → Option Line) (unmarshal : Line → Option Flow)
    (print_bytes : Line → Line) (segment : DiskBuffer) where
  -- `WatchCacheFiles`.
  unfoldable pub glob : State Line → State Line
  glob s = record s { cache_files = map (λ f. f.0) s.files }

  unfoldable pub step : Event → State Line → State Line
  unfolding receive sender_test sender_send decide write write_watchdog open_file read
      read_watchdog_low read_watchdog_high glob
  step (receives msg) s = receive marshal segment msg s
  step closes s = record s { in_open = false }
  step sender_tests s = sender_test marshal segment s
  step sender_sends s = sender_send marshal segment s
  step globs s = glob s
  step decides s = decide marshal segment s
  step writes s = write marshal segment s
  step write_low_mark s = write_watchdog marshal segment s
  step opens s = open_file s
  step (reads taken) s = read unmarshal print_bytes segment taken s
  step read_low_mark s = read_watchdog_low unmarshal print_bytes segment s
  step read_high_mark s = read_watchdog_high unmarshal print_bytes segment s

  unfoldable pub run : List Event → State Line → State Line
  unfolding step
  run [] s = s
  run (e ∷ es) s = run es (step e s)
