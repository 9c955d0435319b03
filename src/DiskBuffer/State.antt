-- ===== src/DiskBuffer/State.antt =====
-- segments/input/diskbuffer/diskbuffer.go: what the goroutines of `Run` share.
use flowpipeline.Base.{ℕ, ◌+◌, ◌*◌, ◌/◌, Bool, true, false, List, [], ◌∷◌, ◌++◌, Option}
use flowpipeline.Flow.{Flow}
use flowpipeline.DiskBuffer.{DiskBuffer}

-- The length at which a mark stands.
abbrev pub level : ℕ → DiskBuffer → ℕ
level mark segment = mark * segment.capacity / 100

-- The goroutine that sends: it tests `StopWritingNextSegment`, and then waits for a message.
pub data Sender : Type 0 where
  testing waiting returned : Sender

-- The decider and what it waits for. `writing` has the place in the batch, the lines written,
-- whether `StopWritingToDisk` is closed, and whether it is the writing after the input is closed;
-- `reading` has the files still to be opened, whether the signals are tested before that, the lines
-- of the current file, and those of the `rest_` file once there is one.
module _ (Line : Type 0) where
  pub data Decider : Type 0 where
    idle : Decider
    writing : ℕ → List Line → Bool → Bool → Decider
    reading : List ℕ → Bool → List Line → Option (List Line) → Decider
    decider_returned : Decider

  pub record State : Type 0 where
    pub memory_buffer : List Flow
    pub files : List (ℕ × List Line)
    pub next_name : ℕ
    pub cache_files : List ℕ  -- `CacheFiles`: the names found by the last `Glob`
    pub in_open : Bool
    pub sender : Sender
    pub decider : Decider
    pub stop_reading : Bool  -- `StopReadingFromDisk` is closed
    pub emergency : Bool  -- `EmergencyStopReadingFromDisk` is closed
    pub sent : List Flow

module _ {Line : Type 0} where
  unfoldable pub start : State Line
  start = record {
    memory_buffer = [];
    files = [];
    next_name = 0;
    cache_files = [];
    in_open = true;
    sender = testing;
    decider = idle;
    stop_reading = false;
    emergency = false;
    sent = [];
  }

  -- A file is closed.
  unfoldable pub close_file : List Line → Decider Line → State Line → State Line
  close_file lines next s = record s {
    files = s.files ++ ((s.next_name, lines) ∷ []);
    next_name = s.next_name + 1;
    decider = next;
  }
