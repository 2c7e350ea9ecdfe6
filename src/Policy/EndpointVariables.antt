-- ===== src/Policy/EndpointVariables.antt =====
-- internal/runtime/endpointvars/agent.go: the variables of an endpoint, evaluated once for a request. The
-- hybrid evaluator of CEL and templates comes as an argument. Logging is left out.
use pass_ctrl.Prelude.{String, [], ◌∷◌, Result, ok, err, is_empty, if◌then◌else◌}
use pass_ctrl.Assoc.{Assoc, put}
use pass_ctrl.Value.{Value}
use pass_ctrl.Pipeline.State.{AgentResult, HttpRequest, State}

-- HybridEvaluator.Evaluate on RequestContext
abbrev pub RequestEvaluator : Type 0
RequestEvaluator = String → HttpRequest → Result Value

value_or_empty : Result Value → Value
value_or_empty (ok value) = value
value_or_empty (err e) = Value.str ""

unfoldable pub evaluate_variables :
    RequestEvaluator → HttpRequest → Assoc String → Assoc Value → Assoc Value
unfolding value_or_empty
evaluate_variables evaluate r [] out = out
evaluate_variables evaluate r ((name, expression) ∷ m) out =
    evaluate_variables evaluate r m (put name (value_or_empty (evaluate expression r)) out)

-- Execute
unfoldable pub execute_endpoint_variables :
    RequestEvaluator → Assoc String → HttpRequest → State → AgentResult × State
execute_endpoint_variables evaluate variables r s =
    let known = s.variables in
    if is_empty variables
    then (record { name = "endpoint_variables"; status = "skipped"; details = "" }, s)
    else (
      record { name = "endpoint_variables"; status = "completed"; details = "" },
      record s { variables = record known { global = evaluate_variables evaluate r variables [] } },
    )
