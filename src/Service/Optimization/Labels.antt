-- ===== src/Service/Optimization/Labels.antt =====
-- `_slug` and `_default_label`.
use Prim.Native.Char.{Char, code}
use Prim.Native.String.{String, [], ◌∷◌, ◌++◌}
use google_meridian_mcp_serv.Prelude.{◌==◌, if◌then◌else◌}
use google_meridian_mcp_serv.Domain.Run.{Scenario, fixed_budget, target_roas, target_mroas}

abbrev dash : Char
dash = "-"

-- `model_id.replace("/", "-")`
abbrev pub slug : String → String
slug [] = []
slug (c ∷ s) = (if code c == 47 then dash else c) ∷ slug s

-- `config.scenario.type`
abbrev pub scenario_type : Scenario → String
scenario_type (fixed_budget b) = "fixed_budget"
scenario_type (target_roas t) = "target_roas"
scenario_type (target_mroas t) = "target_mroas"

-- `f"{_slug(model_id)} {config.scenario.type}"`
abbrev pub default_label : String → Scenario → String
default_label model_id scenario = slug model_id ++ " " ++ scenario_type scenario
