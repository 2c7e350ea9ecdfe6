-- ===== src/Tests/Policies.antt =====
-- The policies of an endpoint and the rules' definitions.
use pass_ctrl.Prelude.{◌≡◌, ◌↔◌, refl, true, false, none, some, [], ◌∷◌, pos}
use pass_ctrl.Text.{trim_space}
use pass_ctrl.Cache.Memory.{MemoryCache}
use pass_ctrl.Pipeline.State.{State, new_state}
use pass_ctrl.Rulechain.Definitions.{
  BackendDefinitionSpec, build_backend_definition, compile_condition_programs,
}
use pass_ctrl.Rulechain.Definitions.Backends.{IsUsable, build_backend_definition-IsUsable}
use pass_ctrl.Rulechain.Definitions.Validated.{
  IsOk, conditions_of, validate_rule-compile_condition_programs,
}
use pass_ctrl.Rulechain.Backend.{is_configured}
use pass_ctrl.Config.Loader.{validate_rule}
use pass_ctrl.Tests.Admission.{call}
use pass_ctrl.Tests.Configuration.{rule}

abbrev fresh : State
fresh = new_state call "main" "key" "1"

abbrev decided : State
decided =
    let rule_state = fresh.rule in record fresh { rule = record rule_state { outcome = "pass" } }

abbrev store : MemoryCache
store = record { ttl = pos 100; entries = [] }

abbrev kept : State
kept = record decided { cache_key = "key" }

abbrev users : BackendDefinitionSpec
users = record {
  url = " https://api/users ";
  method = "";
  forward_proxy_headers = false;
  headers = ("Accept", some "json") ∷ ("accept", none) ∷ [];
  query = [];
  body = "";
  body_file = "";
  accepted = [];
  pagination = record { kind = ""; max_pages = pos 0 };
}

users-configured : is_configured (build_backend_definition none users) ≡ true
unfolding build_backend_definition trim_space
users-configured = refl

build_backend_definition-IsUsable_example : IsUsable (build_backend_definition none users)
build_backend_definition-IsUsable_example =
    build_backend_definition-IsUsable none users users-configured

validate_rule-compile_condition_programs_example :
    (validate_rule (λ source. none) rule ≡ none)
    ↔ IsOk (compile_condition_programs (λ source. none) (conditions_of rule.conditions))
validate_rule-compile_condition_programs_example =
    validate_rule-compile_condition_programs (λ source. none) rule
