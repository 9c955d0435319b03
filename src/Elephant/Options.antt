-- ===== src/Elephant/Options.antt =====
-- segments/filter/elephant/elephant.go: `New`. The parsers of strconv, without their errors, floats
-- and `strings.ToLower` are parameters.
use flowpipeline.Base.{
  ℕ, ◌-◌, ◌^◌, ◌<◌, ◌≤◌, Bool, false, ◌||◌, Option, none, some, String, str_eq, str_eq_iff, ℤ, pos,
  negsuc, ltb, if◌then◌else◌, ◌>>=◌, Holds, ◌⊎◌, inl, inr, ◌≡◌, arith, Bool-cases,
}
use flowpipeline.Elephant.{Elephant}

-- `math.MaxInt`.
abbrev max_int : ℕ
max_int = 2 ^ 63 - 1

-- `strconv.ParseInt(s, 10, 64)`, `strconv.ParseFloat`, `strconv.ParseBool`, `percentile == 0` and
-- the default of 99.
pub record Parsers (Float : Type 0) : Type 0 where
  pub parse_int : String → Option ℤ
  pub parse_float : String → Option Float
  pub parse_bool : String → Option Bool
  pub to_lower : String → String
  pub is_zero : Float → Bool
  pub ninety_nine : Float

-- The options of a segment; `segment` has those that `Run` reads beside the window and percentile.
pub record Options (Float : Type 0) : Type 0 where
  pub segment : Elephant
  pub percentile : Float
  pub window : ℕ

module _ {Float : Type 0} (p : Parsers Float) where
  unfoldable pub parse_aspect : String → String
  parse_aspect value =
      let aspect = p.to_lower value in
      if str_eq value ""
      then "bytes"
      else if str_eq aspect "bytes"
          || str_eq aspect "packets"
          || str_eq aspect "bps"
          || str_eq aspect "pps"
      then aspect
      else "bytes"

  -- None is the nil that `New` returns.
  unfoldable pub parse_percentile : String → Option Float
  parse_percentile value =
      if str_eq value "" then some p.ninety_nine else elim (p.parse_float value) [
        | none ↦ some p.ninety_nine
        | some f ↦ if p.is_zero f then none else some f
      ]

  unfoldable pub parse_exact : String → Bool
  parse_exact value =
      if str_eq value "" then false else elim (p.parse_bool value) [ none ↦ false | some b ↦ b ]

  -- A number from `least` on, for `window` and `rampuptime`.
  unfoldable pub parse_seconds : ℕ → ℕ → String → Option ℕ
  parse_seconds least default value =
      if str_eq value "" then some default else elim (p.parse_int value) [
        | none ↦ some default
        | some (negsuc n) ↦ none
        | some (pos n) ↦ if ltb n least then none else if ltb max_int n then none else some n
      ]

  unfoldable pub new : (String → String) → Option (Options Float)
  unfolding parse_aspect parse_percentile parse_exact parse_seconds
  new config = parse_percentile (config "percentile") >>= λ percentile.
      (parse_seconds 1 300 (config "window") >>= λ window.
      (parse_seconds 0 0 (config "rampuptime") >>= λ rampup. some (record {
        segment = record {
          aspect = parse_aspect (config "aspect");
          exact = parse_exact (config "exact");
          rampup_time = rampup;
        };
        percentile = percentile;
        window = window;
      })))

  -- An aspect that `Run` knows, and a window that is not empty.
  abbrev pub CanRun : Options Float → Type 0
  CanRun o =
      ((o.segment.aspect ≡ "bytes")
        ⊎ (o.segment.aspect ≡ "packets")
        ⊎ (o.segment.aspect ≡ "bps")
        ⊎ (o.segment.aspect ≡ "pps"))
      × (0 < o.window)
      × (o.window ≤ max_int)
      × (o.segment.rampup_time ≤ max_int)

  abbrev IsSeconds : ℕ → ℕ → Type 0
  IsSeconds least n = (least ≤ n) × (n ≤ max_int)

  parse_seconds-IsSeconds :
      (least default : ℕ) (value : String)
      → IsSeconds least default
      → Holds (IsSeconds least) (parse_seconds least default value)
  unfolding parse_seconds
  parse_seconds-IsSeconds least default value h = elim (Bool-cases (str_eq value "")) [
    | inl e ↦ rw e h
    | inr e ↦ rw e (parsed (p.parse_int value))
  ]
    where
      parsed :
          (result : Option ℤ)
          → Holds (IsSeconds least) (elim result [
            | none ↦ some default
            | some (negsuc n) ↦ none
            | some (pos n) ↦ if ltb n least then none else if ltb max_int n then none else some n
          ])
      parsed none = h
      parsed (some (negsuc n)) = tt
      parsed (some (pos n)) = elim (Bool-cases (ltb n least)) [
        | inl e ↦ rw e tt
        | inr e ↦ elim (Bool-cases (ltb max_int n)) [
          | inl f ↦ rw (e, f) tt
          | inr f ↦ rw (e, f) (ground arith, ground arith)
        ]
      ]

  parse_aspect_lem :
      (value : String)
      → let a = parse_aspect value in (a ≡ "bytes") ⊎ (a ≡ "packets") ⊎ (a ≡ "bps") ⊎ (a ≡ "pps")
  unfolding parse_aspect
  parse_aspect_lem value =
      let a = p.to_lower value in
      ground (
        arith,
        str_eq_iff a "bytes",
        str_eq_iff a "packets",
        str_eq_iff a "bps",
        str_eq_iff a "pps",
      )

  -- Any options give nil, or an aspect that `Run` knows, a window of at least a second, and times
  -- that fit into an `int`.
  pub new-CanRun : (config : String → String) → Holds CanRun (new config)
  unfolding new
  new-CanRun config =
      made (parse_percentile (config "percentile")) (parse_seconds 1 300 (config "window"))
        (parse_seconds 0 0 (config "rampuptime"))
        (parse_seconds-IsSeconds 1 300 (config "window") (omega arith, omega arith))
        (parse_seconds-IsSeconds 0 0 (config "rampuptime") (omega arith, omega arith))
    where
      made :
          (f : Option Float) (w r : Option ℕ)
          → Holds (IsSeconds 1) w
          → Holds (IsSeconds 0) r
          → Holds CanRun (
              f >>= λ percentile.
              (w >>= λ window.
              (r >>= λ rampup. some (record {
                segment = record {
                  aspect = parse_aspect (config "aspect");
                  exact = parse_exact (config "exact");
                  rampup_time = rampup;
                };
                percentile = percentile;
                window = window;
              }))))
      made none w r h k = tt
      made (some f) none r h k = tt
      made (some f) (some w) none h k = tt
      made (some f) (some w) (some r) h k =
          (parse_aspect_lem (config "aspect"), omega (arith, h.0), h.1, k.1)
