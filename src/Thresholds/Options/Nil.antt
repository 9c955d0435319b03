-- ===== src/Thresholds/Options/Nil.antt =====
-- When the segment can start.
use flowpipeline.Base.{
  Bool, true, false, ◌&&◌, List, [], ◌∷◌, Option, none, some, String, ◌≡◌, refl, ap, ap₂, ◌∙◌,
}
use flowpipeline.FlowFilter.Nodes.{Expression}
use flowpipeline.Thresholds.{ThresholdMetric, metric, SubDefinitions, more}
use flowpipeline.Thresholds.Counts.{AllHaveDatabases}
use flowpipeline.Thresholds.Options.{
  Definition, definition, Definitions, no_definitions, one_more, params_of, metric_from_definition,
  metrics_from_definitions,
}

abbrev is_some {ℓ} : {A : Type ℓ} → Option A → Bool
is_some none = false
is_some (some a) = true

module _ (parse : String → Option Expression) (relevant_address : String) where
  -- Every filter of a tree parses.
  unfoldable mutual
    pub parses : Definition → Bool
    parses (definition params filter subs) = is_some (parse filter) && all_parse subs

    pub all_parse : Definitions → Bool
    all_parse no_definitions = true
    all_parse (one_more d ds) = parses d && all_parse ds

  abbrev pub parse_in : List Definition → Bool
  parse_in [] = true
  parse_in (d ∷ ds) = parses d && parse_in ds

  metric-combine :
      (p : Option Expression) (subs : Option SubDefinitions)
      (f : Expression → SubDefinitions → ThresholdMetric)
      → is_some
          (elim p [ none ↦ none | some e ↦ elim subs [ none ↦ none | some ms ↦ some (f e ms) ] ])
        ≡ (is_some p && is_some subs)
  metric-combine none subs f = refl
  metric-combine (some e) none f = refl
  metric-combine (some e) (some ms) f = refl

  more-combine :
      (m : Option ThresholdMetric) (subs : Option SubDefinitions)
      → is_some (elim m [
        | none ↦ none
        | some m' ↦ elim subs [ none ↦ none | some ms ↦ some (more m' ms) ]
      ])
        ≡ (is_some m && is_some subs)
  more-combine none subs = refl
  more-combine (some e) none = refl
  more-combine (some e) (some ms) = refl

  mutual
    unfolding metric_from_definition metrics_from_definitions parses all_parse

    metric_from_definition-parses :
        (d : Definition) → is_some (metric_from_definition parse relevant_address d) ≡ parses d
    metric_from_definition-parses (definition params filter subs) =
        metric-combine (parse filter) (metrics_from_definitions parse relevant_address subs)
          (λ e ms. metric (params_of relevant_address params) none e ms)
        ∙ ap (λ b. is_some (parse filter) && b) (metrics_from_definitions-parse subs)

    metrics_from_definitions-parse :
        (ds : Definitions)
        → is_some (metrics_from_definitions parse relevant_address ds) ≡ all_parse ds
    metrics_from_definitions-parse no_definitions = refl
    metrics_from_definitions-parse (one_more d ds) =
        more-combine (metric_from_definition parse relevant_address d)
          (metrics_from_definitions parse relevant_address ds)
        ∙ ap₂ (λ a b. a && b) (metric_from_definition-parses d) (metrics_from_definitions-parse ds)

  abbrev pub CanStart : List Definition → Option SubDefinitions → Type 0
  CanStart ds none = parse_in ds ≡ false
  CanStart ds (some ms) = (parse_in ds ≡ true) × AllHaveDatabases ms
