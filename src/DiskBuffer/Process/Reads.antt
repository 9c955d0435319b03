-- ===== src/DiskBuffer/Process/Reads.antt =====
-- What `ReadFromDisk` does to the flows that are held.
use flowpipeline.Base.{
  ℕ, ◌+◌, Bool, true, false, ◌&&◌, ◌||◌, List, [], ◌∷◌, Option, none, some, ◌≡◌, refl, arith, ltb,
  Bool-cases, Option-cases, inl, inr, length,
}
use flowpipeline.Flow.{Flow}
use flowpipeline.DiskBuffer.{DiskBuffer}
use flowpipeline.DiskBuffer.State.{Decider, idle, writing, reading, decider_returned, State}
use flowpipeline.DiskBuffer.Reading.{
  find, end_reading, open_next, open_file, pass_on, read_line, read,
}
use flowpipeline.DiskBuffer.Process.Held.{
  total, in_lines, in_files, held, NoRest, Keeps, calm, total-append, in_files-remove,
}

module _ {Line : Type 0} (unmarshal : Line → Option Flow) (weight : Flow → ℕ) where
  pub open_file-Keeps :
      (s : State Line) (d : Decider Line)
      → NoRest unmarshal weight d
      → Keeps unmarshal weight
          (held unmarshal weight (calm unmarshal weight s d))
          (open_file (calm unmarshal weight s d))
  unfolding open_file open_next end_reading
  open_file-Keeps s idle n = ((refl, n), refl)
  open_file-Keeps s (writing i lines stop final) n = ((refl, n), refl)
  open_file-Keeps s decider_returned n = ((refl, n), refl)
  open_file-Keeps s (reading names tested lines (some rest)) n = absurd n
  open_file-Keeps s (reading names tested (line ∷ lines) none) n = ((refl, n), refl)
  open_file-Keeps s (reading [] tested [] none) n = ((refl, n), refl)
  open_file-Keeps s (reading (name ∷ names) tested [] none) n =
      elim (Bool-cases (tested && (s.stop_reading || false))) [
        | inl e ↦ rw e ((refl, tt), refl)
        | inr e ↦ elim (Option-cases (find name s.files)) [
          | inl f ↦ rw (e, f) ((refl, tt), refl)
          | inr (lines, f) ↦
              rw (e, f)
                ((refl, tt), omega (arith, in_files-remove unmarshal weight name s.files lines f))
        ]
      ]

  module _ (print_bytes : Line → Line) (segment : DiskBuffer) where
    pub pass_on-Keeps :
        (b : Bool) (msg : Flow) (line : Line) (s : State Line) (names : List ℕ) (tested : Bool)
        (lines : List Line)
        → unmarshal line ≡ some msg
        → Keeps unmarshal weight
            (total unmarshal weight s.sent
              + total unmarshal weight s.memory_buffer
              + in_files unmarshal weight s.files
              + (weight msg + in_lines unmarshal weight lines))
            (pass_on unmarshal print_bytes segment b msg
              (calm unmarshal weight s (reading names tested (line ∷ lines) none))
              (calm unmarshal weight s (reading names tested lines none)))
    unfolding pass_on
    pass_on-Keeps true msg line s names tested lines e =
        ((refl, tt), ground (arith, total-append unmarshal weight s.sent (msg ∷ [])))
    pass_on-Keeps false msg line s names tested lines e =
        elim (Bool-cases (ltb (length s.memory_buffer) segment.capacity)) [
          | inl f ↦
              rw f (
                (refl, tt),
                ground (arith, total-append unmarshal weight s.memory_buffer (msg ∷ [])),
              )
          | inr f ↦ rw f ((refl, tt), ground (arith, e))
        ]

    pub read-Keeps :
        (b : Bool) (s : State Line) (d : Decider Line)
        → NoRest unmarshal weight d
        → Keeps unmarshal weight
            (held unmarshal weight (calm unmarshal weight s d))
            (read unmarshal print_bytes segment b (calm unmarshal weight s d))
    unfolding read read_line
    read-Keeps b s idle n = ((refl, n), refl)
    read-Keeps b s (writing i lines stop final) n = ((refl, n), refl)
    read-Keeps b s decider_returned n = ((refl, n), refl)
    read-Keeps b s (reading names tested lines (some rest)) n = absurd n
    read-Keeps b s (reading names tested [] none) n = ((refl, n), refl)
    read-Keeps b s (reading names tested (line ∷ lines) none) n =
        elim (Option-cases (unmarshal line)) [
          | inl e ↦ rw e ((refl, tt), omega arith)
          | inr (msg, e) ↦ rw e (pass_on-Keeps b msg line s names tested lines e)
        ]
