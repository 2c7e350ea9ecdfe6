-- ===== src/Service/Serving.antt =====
-- ServeAuth of internal/runtime/runtime.go: an endpoint's agents one after the other, and the answer. The
-- world has the decision cache, the network and the clock. Logging and metrics are left out.
pub mod Refused
use pass_ctrl.Prelude.{
  ℕ, String, Bool, true, false, not, ◌&&◌, ◌||◌, Option, none, some, List, [], ◌∷◌, ◌==◌,
  if◌then◌else◌, ℤ, pos, int_eq, any,
}
use pass_ctrl.Text.{trim_space, to_lower, contains}
use pass_ctrl.Assoc.{Assoc, put, put_all, get}
use pass_ctrl.Http.{canonical_key, header_get}
use pass_ctrl.Pipeline.State.{AgentResult, HttpRequest, State, new_state}
use pass_ctrl.Runtime.Admission.{Network, AdmissionAgent, AdmissionConfig}
use pass_ctrl.Runtime.Admission.Proxy.{Visit}
use pass_ctrl.Runtime.Admission.Execute.{execute_admission}
use pass_ctrl.Runtime.Engine.{TemplateEngine}
use pass_ctrl.Runtime.RuleExecution.{RuleExecutionAgent}
use pass_ctrl.Runtime.RuleExecution.Rounds.{execute}
use pass_ctrl.Rulechain.Types.{Definition}
use pass_ctrl.Rulechain.Agent.{execute_rule_chain}
use pass_ctrl.Policy.Forward.{ForwardPolicyConfig, execute_forward_policy}
use pass_ctrl.Policy.EndpointVariables.{RequestEvaluator, execute_endpoint_variables}
use pass_ctrl.Policy.Response.{ResponsePolicy, execute_response_policy}

-- pipeline.Agent
abbrev pub Agent : Type 0 → Type 0
Agent W = Visit → W → AgentResult × Visit × W

abbrev pub Clock : Type 0 → Type 0
Clock W = W → ℕ × W

-- An agent that changes the state only.
abbrev on_state : {W : Type 0} → (HttpRequest → State → AgentResult × State) → Agent W
on_state f v w = let done = f v.request v.state in (done.0, record v { state = done.1 }, w)

-- serverAgent.Execute
unfoldable pub execute_server : ℕ → State → AgentResult × State
execute_server now s = (
  record { name = "server_configuration"; status = "ready"; details = "" },
  record s { server = record { pipeline_ready = true; observed_at = now } },
)

module _ {W : Type 0} where
  unfoldable pub server_agent : Clock W → Agent W
  server_agent clock v w =
      let read = clock w in
      let done = execute_server read.0 v.state in (done.0, record v { state = done.1 }, read.1)

  unfoldable pub admission_agent :
      {Addr Prefix : Type 0}
      → Clock W
      → Network Addr Prefix
      → TemplateEngine
      → AdmissionAgent Prefix
      → Agent W
  admission_agent clock net engine agent v w =
      let read = clock w in
      let done = execute_admission net engine agent read.0 v in (done.0, done.1, read.1)

  unfoldable pub forward_agent : ForwardPolicyConfig → Agent W
  forward_agent config = on_state (execute_forward_policy config)

  unfoldable pub variables_agent : RequestEvaluator → Assoc String → Agent W
  variables_agent evaluate variables = on_state (execute_endpoint_variables evaluate variables)

  unfoldable pub rule_chain_agent : Clock W → List Definition → Agent W
  rule_chain_agent clock rules v w =
      let read = clock w in
      let done = execute_rule_chain rules read.0 v.state in
      (done.0, record v { state = done.1 }, read.1)

  unfoldable pub rule_execution_agent : RuleExecutionAgent W → Agent W
  rule_execution_agent agent v w =
      let done = execute agent v.state w in (done.0, record v { state = done.1 }, done.2)

  unfoldable pub response_agent : TemplateEngine → ResponsePolicy → Agent W
  response_agent engine policy = on_state (λ r s. execute_response_policy engine policy s)

  -- The loop over the agents, which ends at an admission that fails.
  unfoldable pub run_agents : List (Agent W) → Visit → W → Visit × W
  run_agents [] v w = (v, w)
  run_agents (agent ∷ agents) v w =
      let done = agent v w in
      let rest = run_agents agents done.1 done.2 in
      if done.0.name == "admission" && done.0.status == "fail" then (done.1, done.2) else rest

-- endpointRuntime
pub record EndpointRuntime (W : Type 0) : Type 0 where
  pub name : String
  pub auth_config : AdmissionConfig
  pub agents : List (Agent W)

-- What goes to the client.
pub record Answer : Type 0 where
  pub status : ℤ
  pub headers : Assoc String
  pub body : String

unfoldable pub ensure_status : State → State
ensure_status s =
    let response = s.response in
    if int_eq response.status (pos 0)
    then record s {
      response = record response {
        status = pos 500;
        message = "pipeline did not render a response";
      };
    }
    else s

-- The reasons that the rules give by themselves, in part.
abbrev generated : List String
generated =
    "condition matched" ∷ "conditions satisfied" ∷ "required pass condition"
    ∷ "evaluated without explicit outcome" ∷ "backend request failed" ∷ "evaluation failed" ∷ []

unfoldable pub answer_body : State → String
answer_body s =
    let message = trim_space s.response.message in
    let reason = trim_space s.rule.reason in
    if not (message == "")
    then message
    else if any (λ part. contains (to_lower reason) part) generated
    then ""
    else reason

set_headers : Assoc String → Assoc String → Assoc String
set_headers [] out = out
set_headers ((name, value) ∷ m) out = set_headers m (put (canonical_key name) value out)

with_correlation : String → String → Assoc String → Assoc String
with_correlation header id out = if header == "" then out else put (canonical_key header) id out

with_content_type : String → Assoc String → Assoc String
with_content_type body out =
    let typed : String = elim (get "Content-Type" out) [ none ↦ "" | some value ↦ value ] in
    if not (body == "") && typed == ""
    then put "Content-Type" "text/plain; charset=utf-8" out
    else out

-- The part of ServeAuth behind the agents.
unfoldable pub answer_of : String → String → State → Answer
unfolding set_headers with_correlation with_content_type
answer_of correlation_header id reached =
    let s = ensure_status reached in
    record {
      status = s.response.status;
      body = answer_body s;
      headers =
          with_content_type (answer_body s)
            (with_correlation correlation_header id (set_headers s.response.headers []));
    }

-- requestCorrelationID, with the random name for a request without one
unfoldable pub request_correlation_id : String → String → HttpRequest → String
request_correlation_id header random r =
    let candidate = trim_space (header_get header r.headers) in
    if not (header == "") && not (candidate == "") then candidate else random

-- The state that ServeAuth starts with.
unfoldable pub first_state :
    Assoc String → Assoc String → HttpRequest → String → String → String → State
first_state environment secrets r endpoint key id =
    let s = new_state r endpoint key id in
    let variables = s.variables in
    record s { variables = record variables { environment = environment; secrets = secrets } }
