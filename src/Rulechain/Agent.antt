-- ===== src/Rulechain/Agent.antt =====
-- internal/runtime/rulechain/agent.go: the agent that makes the plan. The clock's reading comes as an
-- argument.
use pass_ctrl.Prelude.{ℕ, true, false, not, List, [], ◌∷◌, ◌==◌, if◌then◌else◌}
use pass_ctrl.Text.{trim_space}
use pass_ctrl.Rulechain.Types.{Definition}
use pass_ctrl.Pipeline.State.{AgentResult, State, set_plan}

abbrev trimmed : Definition → Definition
trimmed rule = record rule {
  name = trim_space rule.name;
  description = trim_space rule.description;
  pass_message = trim_space rule.pass_message;
  fail_message = trim_space rule.fail_message;
  error_message = trim_space rule.error_message;
}

-- NewAgent
unfoldable pub new_agent : List Definition → List Definition
new_agent [] = []
new_agent (rule ∷ rules) =
    let rest = new_agent rules in if trim_space rule.name == "" then rest else trimmed rule ∷ rest

-- Execute
unfoldable pub execute_rule_chain : List Definition → ℕ → State → AgentResult × State
execute_rule_chain rules now s =
    let rule = s.rule in
    if not s.admission.authenticated
    then (
      record {
        name = "rule_chain";
        status = "short_circuited";
        details = "admission rejected request";
      },
      set_plan (record { rules = [] })
          (record s {
            rule = record rule {
              evaluated_at = now;
              history = [];
              outcome = "fail";
              reason = "admission rejected request";
              executed = false;
              should_execute = false;
            };
          }),
    )
    else (
      record { name = "rule_chain"; status = "ready"; details = "rule evaluation will proceed" },
      set_plan (record { rules = rules })
          (record s {
            rule = record rule {
              evaluated_at = now;
              history = [];
              outcome = "";
              reason = "";
              executed = false;
              from_cache = false;
              should_execute = true;
            };
          }),
    )
