-- ===== src/Tests/Configuration.antt =====
-- Two documents that define rules and an endpoint.
use pass_ctrl.Prelude.{◌≡◌, ◌↔◌, String, false, none, some, List, [], ◌∷◌, All, pos}
use pass_ctrl.Assoc.{get}
use pass_ctrl.Config.Types.{RuleConfig, EndpointConfig, EndpointResponseConfig}
use pass_ctrl.Config.Loader.{
  Compiler, RuleDocument, validate_rule, new_rule_aggregator, add_documents, build_rule_bundle,
}
use pass_ctrl.Config.Loader.Duplicates.{Holds, rules_named, endpoints_named, add_documents-Holds}
use pass_ctrl.Config.Loader.Bundles.{
  sole, all_documents, IsResolved, rules-build_rule_bundle_iff, endpoints-build_rule_bundle_iff,
}

abbrev pub rule : RuleConfig
rule = record {
  description = "asks the user service";
  auth = [];
  backend_api = record {
    url = "https://api/users";
    method = "GET";
    forward_proxy_headers = false;
    headers = [];
    query = [];
    body = "";
    body_file = "";
    accepted_statuses = [];
    pagination = record { kind = ""; max_pages = pos 0 };
  };
  conditions = record { pass = "backend.accepted" ∷ []; fail = []; error = [] };
  responses = record {
    pass = record { variables = [] };
    fail = record { variables = [] };
    error = record { variables = [] };
  };
  variables = [];
  cache = record {
    follow_cache_control = false;
    ttl = record { pass = "5m"; fail = ""; error = "" };
    strict = none;
    include_proxy_headers = none;
  };
}

abbrev no_response : EndpointResponseConfig
no_response = record { status = pos 0; body = ""; body_file = ""; headers = [] }

abbrev pub endpoint : EndpointConfig
endpoint = record {
  description = "";
  variables = [];
  authentication = record {
    required = none;
    allow = record { authorization = "bearer" ∷ []; header = []; query = []; anonymous = false };
    challenge = record { kind = ""; realm = ""; charset = "" };
    response = none;
  };
  forward_proxy_policy = record { trusted_proxy_ips = []; development_mode = false };
  forward_request_policy = record { forward_proxy_headers = false };
  rules = record { name = "lookup" } ∷ [];
  response_policy = record { pass = no_response; fail = no_response; error = no_response };
  cache = record { result_ttl = "" };
}

abbrev inline_definitions : RuleDocument
inline_definitions = record { endpoints = ("main", endpoint) ∷ []; rules = ("lookup", rule) ∷ [] }

abbrev documents : List (RuleDocument × String)
documents =
    (record { endpoints = []; rules = ("spare", rule) ∷ ("lookup", rule) ∷ [] }, "a.yaml") ∷ []

abbrev accept_all : Compiler
accept_all expression = none

rules-build_rule_bundle_iff_example :
    (get "spare" (build_rule_bundle accept_all inline_definitions documents).rules ≡ some rule) ↔ (
      (sole (rules_named "spare" (all_documents inline_definitions documents)) ≡ some rule)
      × (validate_rule accept_all rule ≡ none))
rules-build_rule_bundle_iff_example =
    rules-build_rule_bundle_iff accept_all inline_definitions documents "spare" rule

endpoints-build_rule_bundle_iff_example :
    (get "main" (build_rule_bundle accept_all inline_definitions documents).endpoints
      ≡ some endpoint)
    ↔ ((sole (endpoints_named "main" (all_documents inline_definitions documents)) ≡ some endpoint)
        × All
            (IsResolved (build_rule_bundle accept_all inline_definitions documents).rules)
            endpoint.rules)
endpoints-build_rule_bundle_iff_example =
    endpoints-build_rule_bundle_iff accept_all inline_definitions documents "main" endpoint

add_documents-Holds_example :
    Holds
      (add_documents documents new_rule_aggregator).rules
      "lookup"
      (rules_named "lookup" documents)
    × Holds
        (add_documents documents new_rule_aggregator).endpoints
        "lookup"
        (endpoints_named "lookup" documents)
add_documents-Holds_example = add_documents-Holds documents "lookup"
