-- ===== src/Service/Pipelines.antt =====
-- internal/runtime/runtime.go: a pipeline, its endpoints and its reload. Panics are errors. The lock makes
-- each operation one step.
pub mod Configured
pub mod Reloaded
use pass_ctrl.Prelude.{
  ℕ, String, Bool, true, false, not, ◌&&◌, ◌||◌, Option, none, some, List, [], ◌∷◌, ◌==◌,
  if◌then◌else◌, any, map, ◌⊎◌, inl, inr, ℤ, pos, leb_ℤ, pos_part, Result, ok, err, ◌>>=◌, is_empty,
  is_some,
}
use pass_ctrl.Text.{◌+s◌, trim_space, to_lower, sort_strings}
use pass_ctrl.Assoc.{Assoc, get, put}
use pass_ctrl.Http.{header_get, query_get}
use pass_ctrl.Config.Types.{DefinitionSkip, EndpointConfig, RuleConfig}
use pass_ctrl.Config.Loader.{RuleBundle}
use pass_ctrl.Pipeline.State.{HttpRequest, State}
use pass_ctrl.Rulechain.Types.{Definition, Template}
use pass_ctrl.Rulechain.Auth.{quoted}
use pass_ctrl.Rulechain.Definitions.{DefinitionSpec, compile_definitions, ResponseSpec}
use pass_ctrl.Rulechain.Agent.{new_agent}
use pass_ctrl.Runtime.Admission.{AdmissionAgent, AdmissionConfig, sanitize_config}
use pass_ctrl.Runtime.Admission.Proxy.{Visit}
use pass_ctrl.Policy.Response.{ResponsePolicyConfig, CategoryConfig, new_response_policy}
use pass_ctrl.Service.Keys.{Digest, KeySpace, derive_cache_key, key_prefix}
use pass_ctrl.Service.Rules.{compile_configured_rules}
use pass_ctrl.Service.Serving.{
  Agent, Answer, EndpointRuntime, admission_agent, answer_of, first_state, forward_agent,
  request_correlation_id, response_agent, rule_chain_agent, rule_execution_agent, run_agents,
  server_agent,
}
use pass_ctrl.Service.Endpoints.{Engines, build_endpoint_runtime, clock, default_trusted_networks}

pub record Pipeline (W : Type 0) : Type 0 where
  pub keys : KeySpace
  pub correlation_header : String
  pub environment : Assoc String
  pub secrets : Assoc String
  pub endpoints : Assoc (EndpointRuntime W)
  pub default_endpoint : Option (EndpointRuntime W)
  pub using_fallback : Bool
  pub rule_sources : List String
  pub skipped : List DefinitionSkip

pub record PipelineOptions : Type 0 where
  pub cache_epoch : ℤ
  pub cache_key_salt : String
  pub cache_namespace : String
  pub endpoints : Assoc EndpointConfig
  pub rules : Assoc RuleConfig
  pub rule_sources : List String
  pub skipped_definitions : List DefinitionSkip
  pub correlation_header : String
  pub loaded_environment : Assoc String
  pub loaded_secrets : Assoc String

abbrev no_response_spec : ResponseSpec
no_response_spec = record { status = pos 0; body = ""; body_file = ""; variables = [] }

-- DefaultDefinitions, before it is compiled
default_spec : DefinitionSpec
default_spec = record {
  name = "allow-when-not-denied";
  description = "";
  auth = [];
  conditions = record {
    pass = [];
    fail = "lookup(forward.headers, \"x-passctrl-deny\") == \"true\"" ∷ [];
    error = "lookup(forward.query, \"error\") == \"true\"" ∷ [];
  };
  backend = record {
    url = "";
    method = "";
    forward_proxy_headers = false;
    headers = [];
    query = [];
    body = "";
    body_file = "";
    accepted = [];
    pagination = record { kind = ""; max_pages = pos 0 };
  };
  pass_message = "rule accepted the curated request";
  responses = record { pass = no_response_spec; fail = no_response_spec; error = no_response_spec };
  variables = record { variables = [] };
  fail_message = "";
  error_message = "";
  cache = record {
    follow_cache_control = false;
    ttl = record { pass = ""; fail = ""; error = "" };
    strict = none;
    include_proxy_headers = none;
  };
}

abbrev default_auth : AdmissionConfig
default_auth = record {
  required = false;
  allow = record {
    authorization = "basic" ∷ "bearer" ∷ [];
    header = [];
    query = [];
    anonymous = false;
  };
  challenge = record { kind = ""; realm = ""; charset = "" };
  response = none;
}

abbrev no_category : CategoryConfig
no_category = record { status = pos 0; body = ""; body_file = ""; headers = [] }

-- The invalidation behind the deletion, unless this was an error.
purge : {W : Type 0} → (String → W → Result (Unit {0}) × W) → String → Result (Unit {0}) × W → W
purge invalidate prefix (err e, w) = w
purge invalidate prefix (ok done, w) = (invalidate prefix w).1

rules_or_none : Result (Assoc Definition) → Assoc Definition
rules_or_none (ok rules) = rules
rules_or_none (err e) = []

add_endpoint :
    {W : Type 0}
    → Result (EndpointRuntime W)
    → Assoc (EndpointRuntime W)
    → Assoc (EndpointRuntime W)
add_endpoint (ok endpoint) out = put (to_lower endpoint.name) endpoint out
add_endpoint (err e) out = out

module _ {W Addr Prefix : Type 0} (engines : Engines W Addr Prefix) where
  build_endpoints :
      Assoc Definition
      → Assoc EndpointConfig
      → Assoc (EndpointRuntime W)
      → Assoc (EndpointRuntime W)
  unfolding add_endpoint
  build_endpoints compiled [] out = out
  build_endpoints compiled ((name, config) ∷ endpoints) out =
      build_endpoints compiled endpoints
        (add_endpoint (build_endpoint_runtime engines name config compiled) out)

  fallback_runtime : List Definition → EndpointRuntime W
  fallback_runtime rules =
      let render = engines.executor.render in
      record {
        name = "default";
        auth_config = default_auth;
        agents =
            server_agent (clock engines)
            ∷ admission_agent (clock engines) engines.network render (record {
              trusted_networks = default_trusted_networks engines;
              development_mode = false;
              config = sanitize_config default_auth;
              compiled_body = none;
            })
            ∷ forward_agent (record { forward_proxy_headers = false })
            ∷ rule_chain_agent (clock engines) (new_agent rules)
            ∷ rule_execution_agent engines.executor
            ∷ response_agent render (
                new_response_policy engines.parser engines.compile_file (record {
                  endpoint = "default";
                  pass = no_category;
                  fail = no_category;
                  error = no_category;
                }))
            ∷ [];
      }

  -- installFallbackEndpoint
  unfoldable pub install_fallback_endpoint : Pipeline W → Result (Pipeline W)
  unfolding fallback_runtime default_spec
  install_fallback_endpoint p = do
    rules ← compile_definitions engines.cel engines.regex (some engines.parser) (default_spec ∷ [])
    ok (record p {
      endpoints = put "default" (fallback_runtime rules) p.endpoints;
      default_endpoint = some (fallback_runtime rules);
      using_fallback = true;
    })

  -- configureEndpoints behind the building of the endpoints
  choose_default : Pipeline W → Assoc (EndpointRuntime W) → Result (Pipeline W)
  choose_default p [] = install_fallback_endpoint (record p { endpoints = [] })
  choose_default p ((key, endpoint) ∷ []) =
      ok (record p { endpoints = (key, endpoint) ∷ []; default_endpoint = some endpoint })
  choose_default p (first ∷ second ∷ endpoints) =
      ok (record p { endpoints = first ∷ second ∷ endpoints; default_endpoint = none })

  -- configureEndpoints
  unfoldable pub configure_endpoints :
      Assoc EndpointConfig → Assoc RuleConfig → Pipeline W → Result (Pipeline W)
  unfolding build_endpoints choose_default rules_or_none
  configure_endpoints endpoints rules p =
      let compiled =
        rules_or_none
          (compile_configured_rules engines.cel engines.regex (some engines.parser) rules) in
      choose_default (record p { endpoints = []; default_endpoint = none; using_fallback = false })
        (build_endpoints compiled endpoints [])

  -- NewPipeline
  unfoldable pub new_pipeline : PipelineOptions → Result (Pipeline W)
  new_pipeline options = do
    let blank : Pipeline W = record {
      keys = record {
        namespace =
            if options.cache_namespace == ""
            then "passctrl:decision:v1"
            else options.cache_namespace;
        epoch = if leb_ℤ options.cache_epoch (pos 0) then 1 else pos_part options.cache_epoch;
        salt = options.cache_key_salt;
      };
      correlation_header = trim_space options.correlation_header;
      environment = options.loaded_environment;
      secrets = options.loaded_secrets;
      endpoints = [];
      default_endpoint = none;
      using_fallback = false;
      rule_sources = [];
      skipped = [];
    }
    p ← configure_endpoints options.endpoints options.rules blank
    ok (record p { rule_sources = options.rule_sources; skipped = options.skipped_definitions })

  -- Reload, with DeletePrefix and InvalidateOnReload of the decision cache in the world; a cache without
  -- the latter does nothing there
  unfoldable pub reload :
      (String → W → Result (Unit {0}) × W)
      → (String → W → Result (Unit {0}) × W)
      → RuleBundle
      → Pipeline W
      → W
      → Result (Pipeline W × W)
  unfolding purge
  reload delete invalidate bundle p w = do
    next ← configure_endpoints bundle.endpoints bundle.rules p
    ok (
      record next { rule_sources = bundle.sources; skipped = bundle.skipped },
      purge invalidate (key_prefix p.keys) (delete (key_prefix p.keys) w),
    )
