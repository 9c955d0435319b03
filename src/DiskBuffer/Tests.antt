-- ===== src/DiskBuffer/Tests.antt =====
-- The disk buffer at concrete inputs.
use flowpipeline.Base.{
  ◌+◌, true, false, List, [], ◌∷◌, Option, none, some, String, str_eq, ◌≡◌, ◌≢◌, refl, Holds,
  if◌then◌else◌, pos,
}
use flowpipeline.Flow.{Flow, empty_flow}
use flowpipeline.DiskBuffer.{DiskBuffer, Directory, Parsers, new}
use flowpipeline.DiskBuffer.Marks.{AreLevels, new-AreLevels}
use flowpipeline.DiskBuffer.State.{State, returned, waiting, idle}
use flowpipeline.DiskBuffer.Process.{
  Event, receives, closes, sender_tests, sender_sends, globs, decides, writes, run,
}
use flowpipeline.DiskBuffer.Process.Held.{held}
use flowpipeline.DiskBuffer.Process.Conserves.{taken_in, run_conserves}
use flowpipeline.DiskBuffer.Process.Stuck.{run-never_returns}

abbrev parsers : Parsers
parsers = record {
  atoi =
      λ s. if str_eq s "80" then some (pos 80) else if str_eq s "20" then some (pos 20) else none;
  parse_bytes = λ s. none;
  parse_bool = λ s. none;
  parse_duration = λ s. none;
}

abbrev config : String → String
config name =
    if str_eq name "bufferdir"
    then "/tmp"
    else if str_eq name "highmemorymark"
    then "80"
    else if str_eq name "lowmemorymark"
    then "20"
    else ""

abbrev directory : String → Directory
directory name = record { exists_dir = true; is_dir = true; writeable = true }

new-AreLevels_example : Holds AreLevels (new parsers directory config)
new-AreLevels_example = new-AreLevels parsers directory config

abbrev segment : DiskBuffer
segment = record {
  batch_size = 2;
  file_size = 1000;
  high_memory_mark = 70;
  low_memory_mark = 30;
  reading_memory_mark = 5;
  max_cache_size = 1000000000;
  queue_status_interval = pos 0;
  capacity = 64;
}

-- A line is the flow itself.
abbrev same : Flow → Option Flow
same msg = some msg

abbrev events : List Event
events =
    receives (record empty_flow { bytes = 40 })
    ∷ receives (record empty_flow { bytes = 60 })
    ∷ sender_tests
    ∷ sender_sends
    ∷ closes
    ∷ decides
    ∷ writes
    ∷ writes
    ∷ globs
    ∷ []

abbrev start_state : State Flow
start_state = record {
  memory_buffer = [];
  files = [];
  next_name = 0;
  cache_files = [];
  in_open = true;
  sender = waiting;
  decider = idle;
  stop_reading = false;
  emergency = false;
  sent = [];
}

run_conserves_example :
    held same (λ msg. msg.bytes) (run same same (λ line. line) segment events start_state)
    ≡ held same (λ msg. msg.bytes) start_state
      + taken_in same same (λ line. line) segment (λ msg. msg.bytes) events start_state
run_conserves_example =
    run_conserves same same (λ line. line) segment (λ msg. msg.bytes) (λ msg. refl) events
      start_state (tt, (tt, (tt, (tt, (tt, (tt, (tt, (tt, (tt, tt))))))))) (refl, tt)

run-never_returns_example :
    (run same same (λ line. line) segment (closes ∷ events) start_state).sender ≢ returned
run-never_returns_example =
    run-never_returns same same (λ line. line) segment events start_state refl refl tt
