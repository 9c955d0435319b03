-- ===== src/Elephant/Tests.antt =====
-- The segment at a concrete input, with numbers for floats and a list for the window.
use flowpipeline.Base.{ℕ, ◌≡◌, Bool, true, List, [], ◌∷◌, leb, arith, if◌then◌else◌}
use flowpipeline.Flow.{Flow, empty_flow}
use flowpipeline.Elephant.{Elephant, start, run}
use flowpipeline.Elephant.Rampup.{expected, run_passes}

abbrev at_least : ℕ → ℕ → Bool
at_least a b = leb b a

abbrev push : ℕ → ℕ → List ℕ → List ℕ
push now a l = a ∷ l

-- The highest percentile.
abbrev largest : ℕ → List ℕ → ℕ
largest now [] = 0
largest now (x ∷ xs) = let m = largest now xs in if leb m x then x else m

abbrev elephant : Elephant
elephant = record { aspect = "bytes"; exact = true; rampup_time = 2 }

abbrev received : List (Flow × ℕ)
received =
    (record empty_flow { bytes = 50 }, 10)
    ∷ (record empty_flow { bytes = 40 }, 3000000000)
    ∷ (record empty_flow { bytes = 60 }, 3000000001)
    ∷ []

run_passes_example :
    let s = start (λ n. n) at_least push largest largest elephant 10 [] in
    (run (λ n. n) at_least push largest largest elephant true s received).1
    ≡ expected (λ n. n) at_least push largest largest elephant true 10 [] received
run_passes_example =
    run_passes (λ n. n) at_least push largest largest elephant true 10 [] received (ground arith)
