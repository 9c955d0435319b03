-- ===== src/DiskBuffer/Process/Conserves.antt =====
-- The disk buffer loses no flow and doubles none, as long as no emergency stops a reading.
use flowpipeline.Base.{
  ℕ, ◌+◌, List, [], ◌∷◌, Option, ◌≡◌, refl, arith, ltb, sym, Bool-cases, inl, inr, length, subst,
  All,
}
use flowpipeline.Flow.{Flow}
use flowpipeline.DiskBuffer.{DiskBuffer}
use flowpipeline.DiskBuffer.State.{Decider, State, level}
use flowpipeline.DiskBuffer.Reading.{read_watchdog_low}
use flowpipeline.DiskBuffer.Process.{
  Event, receives, closes, sender_tests, sender_sends, globs, decides, writes, write_low_mark,
  opens, reads, read_low_mark, read_high_mark, glob, step, run,
}
use flowpipeline.DiskBuffer.Process.Held.{held, NoRest, IsCalm, Keeps, calm}
use flowpipeline.DiskBuffer.Process.Writes.{
  taken, Writes, receive-Keeps, sender_test-Keeps, sender_send-Keeps, decide-Keeps, write-Keeps,
  watchdog-Keeps,
}
use flowpipeline.DiskBuffer.Process.Reads.{open_file-Keeps, read-Keeps}

-- The events of a run in which no reading has an emergency.
abbrev pub IsNormal : Event → Type 0
IsNormal (receives msg) = Unit
IsNormal closes = Unit
IsNormal sender_tests = Unit
IsNormal sender_sends = Unit
IsNormal globs = Unit
IsNormal decides = Unit
IsNormal writes = Unit
IsNormal write_low_mark = Unit
IsNormal opens = Unit
IsNormal (reads b) = Unit
IsNormal read_low_mark = Unit
IsNormal read_high_mark = ⊥

module _ {Line : Type 0} (marshal : Flow → Option Line) (unmarshal : Line → Option Flow) where
  module _ (print_bytes : Line → Line) (segment : DiskBuffer) (weight : Flow → ℕ) where
    takes_none :
        (e : Event) (s : State Line)
        → let s' = calm unmarshal weight s s.decider in
          Keeps unmarshal weight
            (held unmarshal weight s')
            (step marshal unmarshal print_bytes segment e s')
          → Keeps unmarshal weight
              (held unmarshal weight s' + 0)
              (step marshal unmarshal print_bytes segment e s')
    takes_none e s (c, h) = (c, omega (arith, h))

    low_mark-Keeps :
        (s : State Line) (d : Decider Line)
        → NoRest unmarshal weight d
        → let s' = calm unmarshal weight s d in
          Keeps unmarshal weight
            (held unmarshal weight s')
            (read_watchdog_low unmarshal print_bytes segment s')
    unfolding read_watchdog_low
    low_mark-Keeps s d n =
        elim (Bool-cases (ltb (level segment.low_memory_mark segment) (length s.memory_buffer))) [
          | inl e ↦ rw e ((refl, n), refl)
          | inr e ↦ rw e ((refl, n), refl)
        ]

    step-Keeps :
        Writes unmarshal weight marshal segment
        → (e : Event) (s : State Line) → IsNormal e
        → NoRest unmarshal weight s.decider
        → let s' = calm unmarshal weight s s.decider in
          Keeps unmarshal weight
            (held unmarshal weight s' + taken unmarshal weight marshal segment e s')
            (step marshal unmarshal print_bytes segment e s')
    unfolding step glob read_watchdog_low
    step-Keeps w (receives msg) s i n =
        receive-Keeps unmarshal weight marshal segment msg s s.decider n
    step-Keeps w closes s i n = ((refl, n), omega arith)
    step-Keeps w sender_tests s i n =
        takes_none sender_tests s
          (sender_test-Keeps unmarshal weight marshal segment s s.sender s.decider n)
    step-Keeps w sender_sends s i n =
        takes_none sender_sends s (
          sender_send-Keeps unmarshal weight marshal segment s s.sender s.memory_buffer s.decider n)
    step-Keeps w globs s i n = ((refl, n), omega arith)
    step-Keeps w decides s i n =
        takes_none decides s (decide-Keeps unmarshal weight marshal segment s s.decider n)
    step-Keeps w writes s i n =
        takes_none writes s (write-Keeps unmarshal weight marshal segment w s s.decider n)
    step-Keeps w write_low_mark s i n =
        takes_none write_low_mark s (watchdog-Keeps unmarshal weight marshal segment s s.decider n)
    step-Keeps w opens s i n = takes_none opens s (open_file-Keeps unmarshal weight s s.decider n)
    step-Keeps w (reads b) s i n =
        takes_none (reads b) s (read-Keeps unmarshal weight print_bytes segment b s s.decider n)
    step-Keeps w read_low_mark s i n = takes_none read_low_mark s (low_mark-Keeps s s.decider n)
    step-Keeps w read_high_mark s i n = absurd i

    step-IsCalm :
        Writes unmarshal weight marshal segment
        → (e : Event) (s : State Line) → IsNormal e
        → IsCalm unmarshal weight s
        → Keeps unmarshal weight
            (held unmarshal weight s + taken unmarshal weight marshal segment e s)
            (step marshal unmarshal print_bytes segment e s)
    step-IsCalm w e s i (c, n) =
        let same : calm unmarshal weight s s.decider ≡ s =
          sym (λ t. record s { emergency = c t }) in
        subst
          (λ t.
            Keeps unmarshal weight
              (held unmarshal weight t + taken unmarshal weight marshal segment e t)
              (step marshal unmarshal print_bytes segment e t))
          same (step-Keeps w e s i n)

    -- What the input goroutine takes in a run.
    abbrev pub taken_in : List Event → State Line → ℕ
    taken_in [] s = 0
    taken_in (e ∷ es) s =
        taken unmarshal weight marshal segment e s
        + taken_in es (step marshal unmarshal print_bytes segment e s)

    -- If each flow is written as a line that is read as the flow: from a state without an emergency
    -- and a `rest_` file, through any events but the high mark while reading, in any order, no flow is lost and
    -- none is doubled. Whatever the flows are counted by, the flows sent, in the buffer and in the
    -- files count together what they counted before and what the input goroutine took since.
    pub run_conserves :
        Writes unmarshal weight marshal segment
        → (es : List Event) (s : State Line) → All IsNormal es
        → IsCalm unmarshal weight s
        → held unmarshal weight (run marshal unmarshal print_bytes segment es s)
          ≡ held unmarshal weight s + taken_in es s
    unfolding run
    run_conserves w [] s i c = omega arith
    run_conserves w (e ∷ es) s (i, j) c =
        let (c', h) = step-IsCalm w e s i c in
        omega (arith, h, run_conserves w es (step marshal unmarshal print_bytes segment e s) j c')
