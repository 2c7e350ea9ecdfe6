-- ===== src/Tests/Chain.antt =====
-- A chain of a rule that asks for nothing.
use pass_ctrl.Prelude.{ℕ, ◌+◌, ◌≡◌, refl, true, false, none, [], ◌∷◌, ok, pos, length, All}
use pass_ctrl.Rulechain.Types.{Definition, ResponseDefinition}
use pass_ctrl.Pipeline.State.{HttpRequest, new_state}
use pass_ctrl.Runtime.RuleAuth.Forwarding.{prepare_rule_auth}
use pass_ctrl.Runtime.Conditions.{evaluate_any, evaluate_all, decide}
use pass_ctrl.Runtime.Variables.{evaluate_rule_variables}
use pass_ctrl.Runtime.RuleExecution.{RuleExecutionAgent, evaluate_rule}
use pass_ctrl.Runtime.RuleExecution.Rounds.{Chain, run_rule, next_chain, run_rules}
use pass_ctrl.Runtime.RuleExecution.Passing.{IsPass, run_rules-IsPass}

abbrev no_exports : ResponseDefinition
no_exports = record { exported_variables = [] }

abbrev open_rule : Definition
open_rule = record {
  name = "open";
  description = "";
  auth = [];
  conditions = record { pass = []; fail = []; error = [] };
  backend = record {
    url = "";
    method = "";
    forward_proxy_headers = false;
    headers = record { entries = []; templates = [] };
    query = record { entries = []; templates = [] };
    body = "";
    body_file = "";
    body_template = none;
    accepted = [];
    pagination = record { kind = ""; max_pages = pos 0 };
  };
  pass_message = "welcome";
  responses = record { pass = no_exports; fail = no_exports; error = no_exports };
  variables = record { variables = [] };
  fail_message = "";
  error_message = "";
  pass_template = none;
  fail_template = none;
  error_template = none;
  cache = record {
    follow_cache_control = false;
    ttl = record { pass = ""; fail = ""; error = "" };
    strict = none;
    include_proxy_headers = none;
  };
}

-- An agent whose world is its clock.
abbrev clockwork : RuleExecutionAgent ℕ
clockwork = record {
  render = λ template s. ok template.source;
  regex = λ pattern text. true;
  files = λ path. none;
  eval = λ s now program. ok true;
  evaluator = none;
  web = none;
  encode = λ value. "";
  codec = record { marshal = λ e. none; unmarshal = λ text. none };
  cache = none;
  server_max_ttl = pos 0;
  correlation_header = "";
  clock = λ now. (now, now + 1);
}

abbrev first_request : HttpRequest
first_request = record {
  method = "GET";
  path = "/auth";
  host = "gate";
  remote_addr = "10.0.0.1:99";
  headers = [];
  query = [];
}

abbrev beginning : Chain ℕ
beginning = record {
  verdict = ("", "");
  history = [];
  state = new_state first_request "main" "key" "1";
  world = 0;
}

passes : (run_rules clockwork (open_rule ∷ open_rule ∷ []) beginning).verdict.0 ≡ "pass"
unfolding run_rules next_chain run_rule evaluate_rule prepare_rule_auth evaluate_rule_variables
    decide evaluate_any evaluate_all
passes = refl

run_rules-IsPass_example :
    All IsPass (run_rules clockwork (open_rule ∷ open_rule ∷ []) beginning).history
    × (length (run_rules clockwork (open_rule ∷ open_rule ∷ []) beginning).history
        ≡ length beginning.history + length (open_rule ∷ open_rule ∷ []))
run_rules-IsPass_example =
    run_rules-IsPass clockwork (open_rule ∷ open_rule ∷ []) beginning tt passes
