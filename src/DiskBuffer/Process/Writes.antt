-- ===== src/DiskBuffer/Process/Writes.antt =====
-- What the buffer, the decider and `WriteToDisk` do to the flows that are held.
use flowpipeline.Base.{
  ℕ, ◌+◌, Bool, true, false, ◌&&◌, not, List, [], ◌∷◌, ◌++◌, Option, none, some, ◌≡◌, refl, arith,
  ltb, if◌then◌else◌, Bool-cases, inl, inr, length, Returns,
}
use flowpipeline.Flow.{Flow}
use flowpipeline.DiskBuffer.{DiskBuffer}
use flowpipeline.DiskBuffer.State.{
  Sender, testing, waiting, returned, Decider, idle, writing, reading, decider_returned, State,
  level, close_file,
}
use flowpipeline.DiskBuffer.Writing.{
  receive, sender_test, send_head, sender_send, decide, end_writing, write_head, write,
  write_watchdog,
}
use flowpipeline.DiskBuffer.Process.{
  Event, receives, closes, sender_tests, sender_sends, globs, decides, writes, write_low_mark,
  opens, reads, read_low_mark, read_high_mark,
}
use flowpipeline.DiskBuffer.Process.Held.{
  held, NoRest, Keeps, calm, total-append, in_lines-append, in_files-append,
}

module _ {Line : Type 0} (unmarshal : Line → Option Flow) (weight : Flow → ℕ) where
  module _ (marshal : Flow → Option Line) (segment : DiskBuffer) where
    -- What the input goroutine takes.
    abbrev pub taken : Event → State Line → ℕ
    taken (receives msg) s =
        if s.in_open && ltb (length s.memory_buffer) segment.capacity then weight msg else 0
    taken closes s = 0
    taken sender_tests s = 0
    taken sender_sends s = 0
    taken globs s = 0
    taken decides s = 0
    taken writes s = 0
    taken write_low_mark s = 0
    taken opens s = 0
    taken (reads b) s = 0
    taken read_low_mark s = 0
    taken read_high_mark s = 0

    pub receive-Keeps :
        (msg : Flow) (s : State Line) (d : Decider Line)
        → NoRest unmarshal weight d
        → Keeps unmarshal weight
            (held unmarshal weight (calm unmarshal weight s d) + taken (receives msg) s)
            (receive marshal segment msg (calm unmarshal weight s d))
    unfolding receive
    receive-Keeps msg s d n =
        elim (Bool-cases (s.in_open && ltb (length s.memory_buffer) segment.capacity)) [
          | inl e ↦
              rw e
                ((refl, n), omega (arith, total-append unmarshal weight s.memory_buffer (msg ∷ [])))
          | inr e ↦ rw e ((refl, n), omega arith)
        ]

    pub sender_test-Keeps :
        (s : State Line) (sender : Sender) (d : Decider Line)
        → NoRest unmarshal weight d
        → Keeps unmarshal weight (held unmarshal weight (calm unmarshal weight s d)) (
            sender_test marshal segment
              (record s { emergency = false; decider = d; sender = sender }))
    unfolding sender_test
    sender_test-Keeps s testing d n = ((refl, n), refl)
    sender_test-Keeps s waiting d n = ((refl, n), refl)
    sender_test-Keeps s returned d n = ((refl, n), refl)

    pub sender_send-Keeps :
        (s : State Line) (sender : Sender) (buffer : List Flow) (d : Decider Line)
        → NoRest unmarshal weight d
        → let s' : State Line = record s {
          emergency = false;
          decider = d;
          sender = sender;
          memory_buffer = buffer;
        } in
          Keeps unmarshal weight (held unmarshal weight s') (sender_send marshal segment s')
    unfolding sender_send send_head
    sender_send-Keeps s testing buffer d n = ((refl, n), refl)
    sender_send-Keeps s returned buffer d n = ((refl, n), refl)
    sender_send-Keeps s waiting [] d n = ((refl, n), refl)
    sender_send-Keeps s waiting (msg ∷ rest) d n =
        ((refl, n), omega (arith, total-append unmarshal weight s.sent (msg ∷ [])))

    pub decide-Keeps :
        (s : State Line) (d : Decider Line)
        → NoRest unmarshal weight d
        → Keeps unmarshal weight
            (held unmarshal weight (calm unmarshal weight s d))
            (decide marshal segment (calm unmarshal weight s d))
    unfolding decide
    decide-Keeps s (writing i lines stop final) n = ((refl, n), refl)
    decide-Keeps s (reading names tested lines rest) n = ((refl, n), refl)
    decide-Keeps s decider_returned n = ((refl, n), refl)
    decide-Keeps s idle n = elim (Bool-cases s.in_open) [
      | inr e ↦ rw e ((refl, tt), refl)
      | inl e ↦
          elim (Bool-cases (
            ltb (length s.memory_buffer) (level segment.reading_memory_mark segment)
            && ltb 0 (length s.cache_files))) [
              | inl f ↦ rw (e, f) ((refl, tt), refl)
              | inr f ↦
                  elim (Bool-cases
                    (ltb (level segment.high_memory_mark segment) (length s.memory_buffer))) [
                      | inl g ↦ rw (e, f, g) ((refl, tt), refl)
                      | inr g ↦ rw (e, f, g) ((refl, tt), refl)
                    ]
            ]
    ]

    pub end_writing-Keeps :
        (s : State Line) (i : ℕ) (lines : List Line) (stop final : Bool)
        → Keeps unmarshal weight
            (held unmarshal weight (calm unmarshal weight s (writing i lines stop final)))
            (end_writing marshal segment final lines
              (calm unmarshal weight s (writing i lines stop final)))
    unfolding end_writing close_file
    end_writing-Keeps s i lines stop true = (
      (refl, tt),
      omega (arith, in_files-append unmarshal weight s.files ((s.next_name, lines) ∷ [])),
    )
    end_writing-Keeps s i lines stop false = (
      (refl, tt),
      omega (arith, in_files-append unmarshal weight s.files ((s.next_name, lines) ∷ [])),
    )

    -- Each message is written as a line that is read as the message.
    abbrev pub Writes : Type 0
    Writes = (msg : Flow) → Returns (λ line. unmarshal line ≡ some msg) (marshal msg)

    pub write_head-Keeps :
        Writes
        → (s : State Line) (i : ℕ) (lines : List Line) (stop final : Bool) (buffer : List Flow)
        → let s' : State Line = record s {
          emergency = false;
          decider = writing i lines stop final;
          memory_buffer = buffer;
        } in
          Keeps unmarshal weight
            (held unmarshal weight s')
            (write_head marshal segment i lines stop final buffer s')
    unfolding write_head
    write_head-Keeps w s i lines stop final [] =
        end_writing-Keeps (record s { memory_buffer = [] }) i lines stop final
    write_head-Keeps w s i lines stop final (msg ∷ rest) = written (marshal msg) (w msg)
      where
        written :
            (result : Option Line)
            → Returns (λ line. unmarshal line ≡ some msg) result
            → let s' : State Line = record s {
              emergency = false;
              decider = writing i lines stop final;
              memory_buffer = msg ∷ rest;
            } in
              Keeps unmarshal weight (held unmarshal weight s') (elim result [
                | none ↦ record s' {
                  memory_buffer = rest;
                  decider = writing (i + 1) lines stop final;
                }
                | some line ↦ record s' {
                  memory_buffer = rest;
                  decider = writing (i + 1) (lines ++ (line ∷ [])) stop final;
                }
              ])
        written none r = absurd r
        written (some line) r =
            ((refl, tt), ground (arith, in_lines-append unmarshal weight lines (line ∷ []), r))

    pub write-Keeps :
        Writes
        → (s : State Line) (d : Decider Line) → NoRest unmarshal weight d
        → Keeps unmarshal weight
            (held unmarshal weight (calm unmarshal weight s d))
            (write marshal segment (calm unmarshal weight s d))
    unfolding write
    write-Keeps w s idle n = ((refl, n), refl)
    write-Keeps w s (reading names tested lines rest) n = ((refl, n), refl)
    write-Keeps w s decider_returned n = ((refl, n), refl)
    write-Keeps w s (writing i lines stop final) n = elim (Bool-cases (ltb i segment.batch_size)) [
      | inl e ↦ rw e (write_head-Keeps w s i lines stop final s.memory_buffer)
      | inr e ↦ elim (Bool-cases stop) [
        | inl f ↦ rw (e, f) (end_writing-Keeps s i lines true final)
        | inr f ↦ rw (e, f) ((refl, tt), refl)
      ]
    ]

    pub watchdog-Keeps :
        (s : State Line) (d : Decider Line)
        → NoRest unmarshal weight d
        → Keeps unmarshal weight
            (held unmarshal weight (calm unmarshal weight s d))
            (write_watchdog marshal segment (calm unmarshal weight s d))
    unfolding write_watchdog
    watchdog-Keeps s idle n = ((refl, n), refl)
    watchdog-Keeps s (reading names tested lines rest) n = ((refl, n), refl)
    watchdog-Keeps s decider_returned n = ((refl, n), refl)
    watchdog-Keeps s (writing i lines stop final) n =
        elim (Bool-cases (
          not final
          && s.in_open
          && ltb (length s.memory_buffer) (level segment.low_memory_mark segment))) [
            | inl e ↦ rw e ((refl, tt), refl)
            | inr e ↦ rw e ((refl, tt), refl)
          ]
