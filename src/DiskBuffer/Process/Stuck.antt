-- ===== src/DiskBuffer/Process/Stuck.antt =====
-- What happens when the input is closed while the buffer is empty.
use flowpipeline.Base.{
  ℕ, Bool, true, false, List, [], ◌∷◌, Option, ◌≡◌, ◌≢◌, refl, arith, ltb, ap, sym, ◌∙◌,
  if◌then◌else◌, Bool-cases, inl, inr, subst,
}
use flowpipeline.Flow.{Flow}
use flowpipeline.DiskBuffer.{DiskBuffer}
use flowpipeline.DiskBuffer.State.{
  Sender, testing, waiting, returned, Decider, idle, writing, reading, decider_returned, State,
  level, close_file,
}
use flowpipeline.DiskBuffer.Writing.{
  receive, sender_test, send_head, sender_send, decide, end_writing, write_head, write,
  write_watchdog,
}
use flowpipeline.DiskBuffer.Reading.{open_file, read, read_watchdog_low, read_watchdog_high}
use flowpipeline.DiskBuffer.Process.{
  Event, receives, closes, sender_tests, sender_sends, globs, decides, writes, write_low_mark,
  opens, reads, read_low_mark, read_high_mark, glob, step, run,
}

module _ {Line : Type 0} where
  abbrev pub NotReading : Decider Line → Type 0
  NotReading idle = Unit
  NotReading (writing i lines stop final) = Unit
  NotReading (reading names tested lines rest) = ⊥
  NotReading decider_returned = Unit

  -- The sender waits for a message that no one will put into the buffer.
  abbrev IsStuck : State Line → Type 0
  IsStuck s =
      (s.sender ≡ waiting) × (s.memory_buffer ≡ []) × (s.in_open ≡ false) × NotReading s.decider

  abbrev at : State Line → Decider Line → State Line
  at s d = record s { memory_buffer = []; in_open = false; sender = waiting; decider = d }

  at-IsStuck : (s : State Line) → IsStuck s → s ≡ at s s.decider
  at-IsStuck s (w, m, c, d) = λ i. record s { memory_buffer = m i; in_open = c i; sender = w i }

module _ {Line : Type 0} (marshal : Flow → Option Line) (unmarshal : Line → Option Flow) where
  module _ (print_bytes : Line → Line) (segment : DiskBuffer) where
    -- An idle decider starts the last writing, and a writing ends or goes on.
    write-IsStuck :
        (s : State Line) (i : ℕ) (lines : List Line) (stop final : Bool)
        → IsStuck (write marshal segment (at s (writing i lines stop final)))
    unfolding write write_head end_writing close_file
    write-IsStuck s i lines stop final = elim (Bool-cases (ltb i segment.batch_size)) [
      | inl e ↦ rw e (refl, refl, refl, ended final)
      | inr e ↦ elim (Bool-cases stop) [
        | inl f ↦ rw (e, f) (refl, refl, refl, ended final)
        | inr f ↦ rw (e, f) (refl, refl, refl, tt)
      ]
    ]
      where
        ended : (final : Bool) → NotReading {Line = Line} (if final then decider_returned else idle)
        ended true = tt
        ended false = tt

    watch-IsStuck :
        (s : State Line) (d : Decider Line)
        → NotReading d
        → IsStuck (read_watchdog_low unmarshal print_bytes segment (at s d))
    unfolding read_watchdog_low
    watch-IsStuck s d n = elim (Bool-cases (ltb (level segment.low_memory_mark segment) 0)) [
      | inl e ↦ rw e (refl, refl, refl, n)
      | inr e ↦ rw e (refl, refl, refl, n)
    ]

    step-at :
        (e : Event) (s : State Line) (d : Decider Line)
        → NotReading d
        → IsStuck (step marshal unmarshal print_bytes segment e (at s d))
    unfolding step receive sender_test send_head sender_send decide write_watchdog open_file read
        read_watchdog_high glob
    step-at (receives msg) s d n = (refl, refl, refl, n)
    step-at closes s d n = (refl, refl, refl, n)
    step-at sender_tests s d n = (refl, refl, refl, n)
    step-at sender_sends s d n = (refl, refl, refl, n)
    step-at globs s d n = (refl, refl, refl, n)
    step-at decides s idle n = (refl, refl, refl, tt)
    step-at decides s (writing i lines stop final) n = (refl, refl, refl, tt)
    step-at decides s decider_returned n = (refl, refl, refl, tt)
    step-at decides s (reading names tested lines rest) n = absurd n
    step-at writes s idle n = (refl, refl, refl, tt)
    step-at writes s (writing i lines stop final) n = write-IsStuck s i lines stop final
    step-at writes s decider_returned n = (refl, refl, refl, tt)
    step-at writes s (reading names tested lines rest) n = absurd n
    step-at write_low_mark s idle n = (refl, refl, refl, tt)
    step-at write_low_mark s (writing i lines stop true) n = (refl, refl, refl, tt)
    step-at write_low_mark s (writing i lines stop false) n = (refl, refl, refl, tt)
    step-at write_low_mark s decider_returned n = (refl, refl, refl, tt)
    step-at write_low_mark s (reading names tested lines rest) n = absurd n
    step-at opens s idle n = (refl, refl, refl, tt)
    step-at opens s (writing i lines stop final) n = (refl, refl, refl, tt)
    step-at opens s decider_returned n = (refl, refl, refl, tt)
    step-at opens s (reading names tested lines rest) n = absurd n
    step-at (reads taken) s idle n = (refl, refl, refl, tt)
    step-at (reads taken) s (writing i lines stop final) n = (refl, refl, refl, tt)
    step-at (reads taken) s decider_returned n = (refl, refl, refl, tt)
    step-at (reads taken) s (reading names tested lines rest) n = absurd n
    step-at read_low_mark s d n = watch-IsStuck s d n
    step-at read_high_mark s d n = (refl, refl, refl, n)

    run-IsStuck :
        (es : List Event) (s : State Line)
        → IsStuck s
        → IsStuck (run marshal unmarshal print_bytes segment es s)
    unfolding run
    run-IsStuck [] s h = h
    run-IsStuck (e ∷ es) s (w, m, c, d) =
        run-IsStuck es (step marshal unmarshal print_bytes segment e s) (
          subst (λ t. IsStuck (step marshal unmarshal print_bytes segment e t))
            (sym (at-IsStuck s (w, m, c, d))) (step-at e s s.decider d))

    -- If the input is closed while the sender waits for a message of the empty buffer, and nothing
    -- is read from the disk, the sender never returns, whatever happens then, so that `Run` does
    -- not return.
    pub run-never_returns :
        (es : List Event) (s : State Line)
        → s.sender ≡ waiting
        → s.memory_buffer ≡ []
        → NotReading s.decider
        → (run marshal unmarshal print_bytes segment (closes ∷ es) s).sender ≢ returned
    unfolding run step
    run-never_returns es s w m d e =
        let stuck = run-IsStuck es (record s { in_open = false }) (w, m, refl, d) in
        absurd (waiting-returned (sym stuck.0 ∙ e))
      where
        is_waiting : Sender → Bool
        is_waiting waiting = true
        is_waiting testing = false
        is_waiting returned = false

        waiting-returned : waiting ≡ returned → ⊥
        waiting-returned p = let q : true ≡ false = ap is_waiting p in ground arith
