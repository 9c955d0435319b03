-- ===== src/Thresholds/Options/Tests.antt =====
-- Definitions at concrete inputs.
use flowpipeline.Base.{true, List, [], ◌∷◌, Option, none, some, String, str_eq, if◌then◌else◌}
use flowpipeline.FlowFilter.Nodes.{Expression, empty}
use flowpipeline.Toptalkers.Params.{no_params}
use flowpipeline.Thresholds.Options.{Definition, definition, no_definitions, one_more}

-- The filter `proto` does not parse.
abbrev parse : String → Option Expression
parse s = if str_eq s "proto" then none else some (empty true)

abbrev web : Definition
web = definition (record no_params { traffic_type = "web" }) "" no_definitions

abbrev definitions : List Definition
definitions =
    web
    ∷ definition no_params ""
        (one_more (definition no_params "proto" no_definitions) no_definitions)
    ∷ []
