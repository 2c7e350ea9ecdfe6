-- ===== src/Runtime/Variables.antt =====
-- internal/runtime/rule_execution_agent.go: the variables of a rule, local and exported, and finishRule.
-- The hybrid evaluator of CEL and templates comes as an argument; it may be missing.
pub mod Exported
use pass_ctrl.Prelude.{
  String, Bool, Option, none, some, List, [], ◌∷◌, if◌then◌else◌, ◌==◌, Result, ok, err, ◌>>=◌,
  is_empty,
}
use pass_ctrl.Text.{◌+s◌, sort_strings}
use pass_ctrl.Assoc.{Assoc, get, put, put_all, keys}
use pass_ctrl.Value.{Value}
use pass_ctrl.Rulechain.Types.{Definition, ResponseDefinition}
use pass_ctrl.Rulechain.Auth.{within}
use pass_ctrl.Pipeline.State.{State}
use pass_ctrl.Runtime.RuleAuth.{fields}

-- buildRuleContext: the state that the context is taken from, the local variables as they are now, which
-- the context's rule shares with the state, and the context's own map of variables.
pub record RuleContext : Type 0 where
  pub taken_from : State
  pub shared_local : Assoc Value
  pub variables : Assoc Value

abbrev pub rule_context : State → RuleContext
rule_context s = record {
  taken_from = s;
  shared_local = s.rule.variables.local;
  variables = put "local" (Value.obj (fields s.rule.variables.local)) (
      put "rule" (Value.obj (fields s.rule.variables.rule))
        (put "global" (Value.obj (fields s.variables.global)) s.rule.variables.local));
}

-- HybridEvaluator.Evaluate
abbrev pub HybridEvaluator : Type 0
HybridEvaluator = String → RuleContext → Result Value

abbrev expression_of : String → Assoc String → String
expression_of name m = elim (get name m) [ none ↦ "" | some text ↦ text ]

set_local : Assoc Value → State → State
set_local local s =
    let rule = s.rule in
    let variables = rule.variables in
    record s { rule = record rule { variables = record variables { local = local } } }

-- The local variables of a loop that may end with an error, and what it has set until then.
pub record Locals : Type 0 where
  pub error : Option String
  pub local : Assoc Value

add_local : String → Value → RuleContext → RuleContext
add_local name value ctx = record ctx {
  shared_local = put name value ctx.shared_local;
  variables = put name value ctx.variables;
}

after_local :
    (RuleContext → Assoc Value → Locals)
    → String
    → Result Value
    → RuleContext
    → Assoc Value
    → Locals
unfolding add_local
after_local rest name (err e) ctx local = record { error = some (name +s ": " +s e); local = local }
after_local rest name (ok value) ctx local = rest (add_local name value ctx) (put name value local)

evaluate_locals : HybridEvaluator → Assoc String → List String → RuleContext → Assoc Value → Locals
unfolding after_local
evaluate_locals evaluate m [] ctx local = record { error = none; local = local }
evaluate_locals evaluate m (name ∷ names) ctx local =
    after_local (evaluate_locals evaluate m names) name (evaluate (expression_of name m) ctx) ctx
      local

abbrev result_of : Option String → Result (Unit {0})
result_of none = ok tt
result_of (some e) = err ("local variables: " +s e)

-- evaluateRuleVariables with evaluateLocalVariables
unfoldable pub evaluate_rule_variables :
    Option HybridEvaluator → Definition → State → Result (Unit {0}) × State
unfolding evaluate_locals set_local
evaluate_rule_variables evaluator def s =
    if is_empty def.variables.variables
    then (ok tt, s)
    else (let cleared = set_local [] s in
        elim evaluator [
          | none ↦ (err "local variables: rule evaluator not initialized", cleared)
          | some evaluate ↦
              (let m = def.variables.variables in
                let done =
                  evaluate_locals evaluate m (sort_strings (keys m)) (rule_context cleared) [] in
                (result_of done.error, set_local done.local cleared))
        ])

unfoldable pub evaluate_exports :
    HybridEvaluator → RuleContext → Assoc String → List String → Assoc Value → Result (Assoc Value)
evaluate_exports evaluate ctx m [] exported = ok exported
evaluate_exports evaluate ctx m (name ∷ names) exported = do
  value ← within ("exported variable " +s name) (evaluate (expression_of name m) ctx)
  evaluate_exports evaluate ctx m names (put name value exported)

abbrev pub store_exports : String → Assoc Value → State → State
store_exports rule_name exported s =
    let rule = s.rule in
    let rule_variables = rule.variables in
    let variables = s.variables in
    let response = s.response in
    record s {
      rule = record rule { variables = record rule_variables { exported = exported } };
      variables = record variables { rules = put rule_name exported variables.rules };
      response = record response { variables = put_all exported response.variables };
    }

abbrev exports_done : String → Result (Assoc Value) → State → State
exports_done rule_name (err e) s = s
exports_done rule_name (ok exported) s = store_exports rule_name exported s

-- evaluateExportedVariables, whose error is only logged
unfoldable pub evaluate_exported_variables :
    Option HybridEvaluator → String → Option ResponseDefinition → State → State
evaluate_exported_variables evaluator rule_name none s = s
evaluate_exported_variables none rule_name (some resp) s = s
evaluate_exported_variables (some evaluate) rule_name (some resp) s =
    if is_empty resp.exported_variables
    then s
    else exports_done rule_name
        (evaluate_exports evaluate (rule_context s) resp.exported_variables
          (sort_strings (keys resp.exported_variables)) [])
        s

-- selectRuleResponse
unfoldable pub select_rule_response : Definition → String → Option ResponseDefinition
select_rule_response def outcome =
    if outcome == "pass"
    then some def.responses.pass
    else if outcome == "fail"
    then some def.responses.fail
    else if outcome == "error"
    then some def.responses.error
    else none

abbrev pub set_outcome : String → String → State → State
set_outcome outcome reason s =
    let rule = s.rule in record s { rule = record rule { outcome = outcome; reason = reason } }

-- finishRule, which hands on the outcome and the reason
unfoldable pub finish_rule : Option HybridEvaluator → Definition → String → String → State → State
finish_rule evaluator def outcome reason s =
    evaluate_exported_variables evaluator def.name (select_rule_response def outcome)
      (set_outcome outcome reason s)
