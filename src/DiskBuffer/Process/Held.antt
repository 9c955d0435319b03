-- ===== src/DiskBuffer/Process/Held.antt =====
-- The flows that the disk buffer holds, counted by any weight.
use flowpipeline.Base.{
  ℕ, ◌+◌, false, List, [], ◌∷◌, ◌++◌, Option, none, some, ◌≡◌, arith, ◌==◌, Bool-cases, inl, inr,
}
use flowpipeline.Flow.{Flow}
use flowpipeline.DiskBuffer.State.{Decider, idle, writing, reading, decider_returned, State}
use flowpipeline.DiskBuffer.Reading.{find, remove}

-- A number of each flow, added up; a line of a file counts as the flow that it is read as.
module _ {Line : Type 0} (unmarshal : Line → Option Flow) (weight : Flow → ℕ) where
  abbrev pub total : List Flow → ℕ
  total [] = 0
  total (msg ∷ ms) = weight msg + total ms

  abbrev pub weight_of : Option Flow → ℕ
  weight_of none = 0
  weight_of (some msg) = weight msg

  abbrev pub in_lines : List Line → ℕ
  in_lines [] = 0
  in_lines (line ∷ lines) = weight_of (unmarshal line) + in_lines lines

  abbrev pub in_files : List (ℕ × List Line) → ℕ
  in_files [] = 0
  in_files ((name, lines) ∷ files) = in_lines lines + in_files files

  abbrev pub in_hand : Decider Line → ℕ
  in_hand idle = 0
  in_hand (writing i lines stop final) = in_lines lines
  in_hand (reading names tested lines rest) = in_lines lines
  in_hand decider_returned = 0

  -- What has been sent, and what is in the buffer and on the disk.
  abbrev pub held : State Line → ℕ
  held s = total s.sent + total s.memory_buffer + in_files s.files + in_hand s.decider

  pub total-append : (a b : List Flow) → total (a ++ b) ≡ total a + total b
  total-append [] b = omega arith
  total-append (x ∷ a) b = omega (arith, total-append a b)

  pub in_lines-append : (a b : List Line) → in_lines (a ++ b) ≡ in_lines a + in_lines b
  in_lines-append [] b = omega arith
  in_lines-append (x ∷ a) b = omega (arith, in_lines-append a b)

  pub in_files-append : (a b : List (ℕ × List Line)) → in_files (a ++ b) ≡ in_files a + in_files b
  in_files-append [] b = omega arith
  in_files-append ((n, l) ∷ a) b = omega (arith, in_files-append a b)

  pub in_files-remove :
      (name : ℕ) (files : List (ℕ × List Line)) (lines : List Line)
      → find name files ≡ some lines
      → in_files files ≡ in_lines lines + in_files (remove name files)
  unfolding find remove
  in_files-remove name [] lines h = ground arith
  in_files-remove name ((n, l) ∷ files) lines h = elim (Bool-cases (n == name)) [
    | inl e ↦ ground (arith, in_files-remove name files lines)
    | inr e ↦ ground (arith, in_files-remove name files lines)
  ]

  -- No `rest_` file is written.
  abbrev pub NoRest : Decider Line → Type 0
  NoRest idle = Unit
  NoRest (writing i lines stop final) = Unit
  NoRest (reading names tested lines none) = Unit
  NoRest (reading names tested lines (some rest)) = ⊥
  NoRest decider_returned = Unit

  abbrev pub IsCalm : State Line → Type 0
  IsCalm s = (s.emergency ≡ false) × NoRest s.decider

  -- From what is held before to the state after, `n` more.
  abbrev pub Keeps : ℕ → State Line → Type 0
  Keeps n s = IsCalm s × (held s ≡ n)

  abbrev pub calm : State Line → Decider Line → State Line
  calm s d = record s { emergency = false; decider = d }
