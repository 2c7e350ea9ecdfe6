-- ===== src/Service/Requests.antt =====
-- internal/runtime/runtime.go: the endpoint for a request, the answer to it, and the health of a pipeline.
pub mod Chosen
use pass_ctrl.Prelude.{
  ℕ, String, Bool, true, false, not, ◌&&◌, ◌||◌, Option, none, some, List, [], ◌∷◌, ◌==◌,
  if◌then◌else◌, any, map, ◌⊎◌, inl, inr, ℤ, pos, leb_ℤ, pos_part, Result, ok, err, ◌>>=◌, is_empty,
  is_some,
}
use pass_ctrl.Text.{◌+s◌, trim_space, to_lower, sort_strings}
use pass_ctrl.Assoc.{Assoc, get, put}
use pass_ctrl.Http.{header_get, query_get}
use pass_ctrl.Config.Types.{DefinitionSkip, EndpointConfig, RuleConfig}
use pass_ctrl.Config.Loader.{RuleBundle}
use pass_ctrl.Pipeline.State.{HttpRequest, State}
use pass_ctrl.Rulechain.Types.{Definition, Template}
use pass_ctrl.Rulechain.Auth.{quoted}
use pass_ctrl.Rulechain.Definitions.{DefinitionSpec, compile_definitions, ResponseSpec}
use pass_ctrl.Rulechain.Agent.{new_agent}
use pass_ctrl.Runtime.Admission.{AdmissionAgent, AdmissionConfig, sanitize_config}
use pass_ctrl.Runtime.Admission.Proxy.{Visit}
use pass_ctrl.Policy.Response.{ResponsePolicyConfig, CategoryConfig, new_response_policy}
use pass_ctrl.Service.Keys.{Digest, KeySpace, derive_cache_key, key_prefix}
use pass_ctrl.Service.Rules.{compile_configured_rules}
use pass_ctrl.Service.Serving.{
  Agent, Answer, EndpointRuntime, admission_agent, answer_of, first_state, forward_agent,
  request_correlation_id, response_agent, rule_chain_agent, rule_execution_agent, run_agents,
  server_agent,
}
use pass_ctrl.Service.Endpoints.{Engines, build_endpoint_runtime, clock, default_trusted_networks}
use pass_ctrl.Service.Pipelines.{Pipeline}

-- lookupEndpoint
unfoldable pub lookup_endpoint :
    {W : Type 0} → Assoc (EndpointRuntime W) → String → Option (EndpointRuntime W)
lookup_endpoint endpoints name =
    if trim_space name == "" then none else get (to_lower (trim_space name)) endpoints

-- The endpoint for a request, or the status and the message of the refusal.
abbrev pub Choice : Type 0 → Type 0
Choice W = (ℤ × String) ⊎ EndpointRuntime W

found_or : {W : Type 0} → ℤ × String → Option (EndpointRuntime W) → Choice W
found_or refusal none = inl refusal
found_or refusal (some endpoint) = inr endpoint

not_found : String → ℤ × String
not_found name = (pos 404, "endpoint " +s quoted name +s " not found")

-- The endpoint that a request names itself.
named_endpoint : HttpRequest → String
named_endpoint r =
    let query = trim_space (query_get "endpoint" r.query) in
    if query == "" then trim_space (header_get "X-PassCtrl-Endpoint" r.headers) else query

-- endpointForRequest, with the hint of the route
unfoldable pub endpoint_for_request : {W : Type 0} → Pipeline W → String → HttpRequest → Choice W
unfolding found_or not_found named_endpoint
endpoint_for_request p hint r =
    if not (trim_space hint == "")
    then found_or (not_found (trim_space hint)) (lookup_endpoint p.endpoints (trim_space hint))
    else if is_empty p.endpoints
    then found_or (pos 500, "no endpoints configured") p.default_endpoint
    else if named_endpoint r == ""
    then found_or (pos 400, "endpoint parameter required") p.default_endpoint
    else found_or (not_found (named_endpoint r)) (lookup_endpoint p.endpoints (named_endpoint r))

abbrev names_of : {W : Type 0} → Assoc (EndpointRuntime W) → List String
names_of [] = []
names_of ((key, endpoint) ∷ endpoints) = endpoint.name ∷ names_of endpoints

other_names : String → List String → List String
other_names name [] = []
other_names name (other ∷ names) =
    let rest = other_names name names in if other == name then rest else other ∷ rest

-- endpointNames
unfoldable pub endpoint_names : {W : Type 0} → Pipeline W → List String
unfolding other_names
endpoint_names p = sort_strings (elim p.default_endpoint [
  | none ↦ names_of p.endpoints
  | some endpoint ↦ endpoint.name ∷ other_names endpoint.name (names_of p.endpoints)
])

-- healthSnapshot
unfoldable pub health_snapshot :
    {W : Type 0} → Pipeline W → String × List String × List DefinitionSkip × Bool
health_snapshot p = (
  if p.using_fallback || not (is_empty p.skipped) then "degraded" else "ok",
  p.rule_sources,
  p.skipped,
  p.using_fallback,
)

-- What WriteError sends.
pub record Refusal : Type 0 where
  pub status : ℤ
  pub error : String
  pub available_endpoints : List String

-- WriteError
unfoldable pub write_error : {W : Type 0} → Pipeline W → ℤ → String → Refusal
write_error p status message = record {
  status = if leb_ℤ status (pos 0) then pos 500 else status;
  error = message;
  available_endpoints = endpoint_names p;
}

-- ServeAuth: an answer, or the refusal of WriteError
unfoldable pub serve_auth :
    {W : Type 0} → Digest → Pipeline W → String → String → HttpRequest → W → (Refusal ⊎ Answer) × W
serve_auth digest p hint random r w = elim (endpoint_for_request p hint r) [
  | inl refusal ↦ (inl (write_error p refusal.0 refusal.1), w)
  | inr endpoint ↦
      let id = request_correlation_id p.correlation_header random r in
      let key = derive_cache_key digest p.keys r endpoint.name endpoint.auth_config in
      let start = first_state p.environment p.secrets r endpoint.name key id in
      let done = run_agents endpoint.agents (record { request = r; state = start }) w in
      (inr (answer_of p.correlation_header id done.0.state), done.1)
]
