-- ===== src/Service/Endpoints.antt =====
-- internal/runtime/runtime.go: the endpoints of a configuration, and the one that a request is for. The
-- wrapping of agents for logging is left out.
use pass_ctrl.Prelude.{
  String, Bool, true, Option, none, some, List, [], ◌∷◌, ◌++◌, ◌==◌, if◌then◌else◌, Result, ok, err,
  ◌>>=◌, ◌>>◌, reject_if, is_empty,
}
use pass_ctrl.Text.{◌+s◌, trim_space}
use pass_ctrl.Assoc.{Assoc, get}
use pass_ctrl.Config.Types.{
  EndpointAuthResponseConfig, EndpointAuthenticationConfig, EndpointConfig,
  EndpointForwardRequestPolicyConfig, EndpointResponseConfig, EndpointResponsePolicyConfig,
  EndpointRuleReference,
}
use pass_ctrl.Rulechain.Types.{Definition, Template}
use pass_ctrl.Rulechain.Auth.{RegexParser, TemplateParser, quoted}
use pass_ctrl.Rulechain.Definitions.{CelCompiler}
use pass_ctrl.Rulechain.Agent.{new_agent}
use pass_ctrl.Runtime.Admission.{
  AdmissionConfig, AdmissionResponseConfig, Network, new_with_config, parse_cidrs,
}
use pass_ctrl.Runtime.RuleExecution.{RuleExecutionAgent}
use pass_ctrl.Policy.Forward.{ForwardPolicyConfig}
use pass_ctrl.Policy.EndpointVariables.{RequestEvaluator}
use pass_ctrl.Policy.Response.{CategoryConfig, ResponsePolicyConfig, new_response_policy}
use pass_ctrl.Service.Serving.{
  Agent, Clock, EndpointRuntime, admission_agent, forward_agent, response_agent, rule_chain_agent,
  rule_execution_agent, server_agent, variables_agent,
}

-- What the agents call that is no part of the program: the network's addresses, the compilers and the
-- engines of templates and CEL, and the rule execution agent with the engines of its own. The evaluator
-- of an endpoint's variables may fail to be built.
pub record Engines (W Addr Prefix : Type 0) : Type 0 where
  pub network : Network Addr Prefix
  pub parser : TemplateParser
  pub compile_file : String → Result (Option Template)
  pub cel : CelCompiler
  pub regex : RegexParser
  pub evaluator : Result RequestEvaluator
  pub executor : RuleExecutionAgent W

-- admissionConfigFromEndpoint
abbrev response_from : Option EndpointAuthResponseConfig → Option AdmissionResponseConfig
response_from none = none
response_from (some response) = some (record {
  status = response.status;
  headers = response.headers;
  body = response.body;
  body_file = response.body_file;
})

abbrev required_or_default : Option Bool → Bool
required_or_default none = true
required_or_default (some required) = required

unfoldable pub admission_config_from_endpoint : EndpointAuthenticationConfig → AdmissionConfig
admission_config_from_endpoint config = record {
  required = required_or_default config.required;
  allow = record {
    authorization = config.allow.authorization;
    header = config.allow.header;
    query = config.allow.query;
    anonymous = config.allow.anonymous;
  };
  challenge = record {
    kind = config.challenge.kind;
    realm = config.challenge.realm;
    charset = config.challenge.charset;
  };
  response = response_from config.response;
}

-- forwardPolicyFromConfig
abbrev pub forward_policy_from_config : EndpointForwardRequestPolicyConfig → ForwardPolicyConfig
forward_policy_from_config config = record { forward_proxy_headers = config.forward_proxy_headers }

abbrev category_from : EndpointResponseConfig → CategoryConfig
category_from config = record {
  status = config.status;
  body = config.body;
  body_file = config.body_file;
  headers = config.headers;
}

abbrev response_policy_from : String → EndpointResponsePolicyConfig → ResponsePolicyConfig
response_policy_from endpoint config = record {
  endpoint = endpoint;
  pass = category_from config.pass;
  fail = category_from config.fail;
  error = category_from config.error;
}

-- The compiled rules that an endpoint refers to, in its order.
unfoldable pub select_rules :
    Assoc Definition → List EndpointRuleReference → Result (List Definition)
select_rules compiled [] = ok []
select_rules compiled (ref ∷ refs) =
    let rest = select_rules compiled refs in
    if trim_space ref.name == "" then rest else elim (get (trim_space ref.name) compiled) [
      | none ↦ err ("rule " +s quoted (trim_space ref.name) +s " not available")
      | some def ↦ rest >>= λ defs. ok (def ∷ defs)
    ]

module _ {W Addr Prefix : Type 0} (engines : Engines W Addr Prefix) where
  abbrev pub clock : Clock W
  clock = engines.executor.clock

  -- defaultTrustedNetworks
  unfoldable pub default_trusted_networks : List Prefix
  default_trusted_networks = parse_cidrs engines.network ("127.0.0.0/8" ∷ "::1/128" ∷ [])

  -- The agent for an endpoint's variables, if it has any.
  variables_agents : Assoc String → Result (List (Agent W))
  variables_agents variables =
      if is_empty variables
      then ok []
      else (engines.evaluator >>= λ evaluate. ok (variables_agent evaluate variables ∷ []))

  -- The agents of an endpoint, in their order.
  unfoldable pub endpoint_agents :
      String → EndpointConfig → List Definition → List (Agent W) → List (Agent W)
  endpoint_agents name config rules variables =
      let trusted =
        default_trusted_networks
        ++ parse_cidrs engines.network config.forward_proxy_policy.trusted_proxy_ips in
      let auth = admission_config_from_endpoint config.authentication in
      let render = engines.executor.render in
      server_agent clock
      ∷ admission_agent clock engines.network render (
          new_with_config engines.parser engines.compile_file trusted
            config.forward_proxy_policy.development_mode auth name)
      ∷ forward_agent (forward_policy_from_config config.forward_request_policy)
      ∷ (variables
          ++ (rule_chain_agent clock (new_agent rules)
              ∷ rule_execution_agent engines.executor
              ∷ response_agent render (
                  new_response_policy engines.parser engines.compile_file
                    (response_policy_from name config.response_policy))
              ∷ []))

  -- buildEndpointRuntime
  unfoldable pub build_endpoint_runtime :
      String → EndpointConfig → Assoc Definition → Result (EndpointRuntime W)
  unfolding variables_agents
  build_endpoint_runtime name config compiled = do
    reject_if (trim_space name == "") "endpoint name required"
    rules ← select_rules compiled config.rules
    variables ← variables_agents config.variables
    ok (record {
      name = trim_space name;
      auth_config = admission_config_from_endpoint config.authentication;
      agents = endpoint_agents (trim_space name) config rules variables;
    })
