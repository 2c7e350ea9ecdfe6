-- ===== src/Service/Rules.antt =====
-- internal/runtime/runtime.go: the rules of a configuration, compiled. config.ParseValueConstraint comes
-- with the configuration's types.
pub mod Kept
use pass_ctrl.Prelude.{
  String, Bool, true, false, Option, none, some, List, [], ◌∷◌, ◌==◌, if◌then◌else◌, ℤ, pos, Result,
  ok, err, ◌>>=◌, map,
}
use pass_ctrl.Text.{◌+s◌, trim_space}
use pass_ctrl.Assoc.{Assoc, put}
use pass_ctrl.Value.{Value}
use pass_ctrl.Config.Types.{
  RuleAuthDirective, RuleAuthMatcher, RuleBackendConfig, RuleCacheConfig, RuleConfig,
  RuleForwardAsConfig, RuleResponseConfig, RuleResponsesConfig,
}
use pass_ctrl.Config.Constraints.{parse_optional}
use pass_ctrl.Rulechain.Types.{CacheConfigSpec, Definition}
use pass_ctrl.Rulechain.Auth.{
  AuthDirectiveSpec, AuthForwardSpec, AuthMatcherSpec, RegexParser, within,
}
use pass_ctrl.Rulechain.Definitions.{
  BackendDefinitionSpec, CelCompiler, ConditionSpec, DefinitionSpec, Renderer, ResponseSpec,
  ResponsesSpec, VariablesSpec, compile_definitions,
}

-- buildRuleAuthSpec, of one matcher: it is dropped where a constraint does not parse
unfoldable pub build_matcher_spec : RuleAuthMatcher → Result AuthMatcherSpec
build_matcher_spec m = do
  values ← parse_optional m.value "auth.match.value"
  usernames ← parse_optional m.username "auth.match.username"
  passwords ← parse_optional m.password "auth.match.password"
  ok (record {
    kind = trim_space m.kind;
    name = trim_space m.name;
    value = values;
    username = usernames;
    password = passwords;
  })

pub keep_matcher : Result AuthMatcherSpec → List AuthMatcherSpec → List AuthMatcherSpec
keep_matcher (ok spec) rest = spec ∷ rest
keep_matcher (err e) rest = rest

unfoldable pub build_matcher_specs : List RuleAuthMatcher → List AuthMatcherSpec
unfolding keep_matcher
build_matcher_specs [] = []
build_matcher_specs (m ∷ ms) = keep_matcher (build_matcher_spec m) (build_matcher_specs ms)

abbrev pub build_forward_spec : RuleForwardAsConfig → AuthForwardSpec
build_forward_spec f = record {
  kind = trim_space f.kind;
  name = f.name;
  value = f.value;
  token = f.token;
  user = f.user;
  password = f.password;
}

-- buildRuleAuthSpec
unfoldable pub build_rule_auth_spec : List RuleAuthDirective → List AuthDirectiveSpec
build_rule_auth_spec [] = []
build_rule_auth_spec (directive ∷ directives) =
    record {
      match = build_matcher_specs directive.match;
      forward_as = map build_forward_spec directive.forward_as;
    }
    ∷ build_rule_auth_spec directives

-- buildRuleResponseSpec
abbrev pub build_rule_response_spec : RuleResponseConfig → ResponseSpec
build_rule_response_spec config = record {
  status = pos 0;
  body = "";
  body_file = "";
  variables = config.variables;
}

-- buildRuleResponsesSpec
abbrev pub build_rule_responses_spec : RuleResponsesConfig → ResponsesSpec
build_rule_responses_spec config = record {
  pass = build_rule_response_spec config.pass;
  fail = build_rule_response_spec config.fail;
  error = build_rule_response_spec config.error;
}

-- buildRuleVariablesSpec
abbrev pub build_rule_variables_spec : Assoc String → VariablesSpec
build_rule_variables_spec variables = record { variables = variables }

-- buildRuleCacheSpec
abbrev pub build_rule_cache_spec : RuleCacheConfig → CacheConfigSpec
build_rule_cache_spec config = record {
  follow_cache_control = config.follow_cache_control;
  ttl = record { pass = config.ttl.pass; fail = config.ttl.fail; error = config.ttl.error };
  strict = config.strict;
  include_proxy_headers = config.include_proxy_headers;
}

abbrev pub build_backend_spec : RuleBackendConfig → BackendDefinitionSpec
build_backend_spec config = record {
  url = config.url;
  method = config.method;
  forward_proxy_headers = config.forward_proxy_headers;
  headers = config.headers;
  query = config.query;
  body = config.body;
  body_file = config.body_file;
  accepted = config.accepted_statuses;
  pagination = record { kind = config.pagination.kind; max_pages = config.pagination.max_pages };
}

-- The specification of a rule in compileConfiguredRules.
unfoldable pub build_definition_spec : String → RuleConfig → DefinitionSpec
build_definition_spec name config = record {
  name = name;
  description = config.description;
  auth = build_rule_auth_spec config.auth;
  conditions = record {
    pass = config.conditions.pass;
    fail = config.conditions.fail;
    error = config.conditions.error;
  };
  backend = build_backend_spec config.backend_api;
  pass_message = "";
  responses = build_rule_responses_spec config.responses;
  variables = build_rule_variables_spec config.variables;
  fail_message = "";
  error_message = "";
  cache = build_rule_cache_spec config.cache;
}

put_first : String → List Definition → Assoc Definition → Assoc Definition
put_first name [] out = out
put_first name (def ∷ defs) out = put name def out

module _ (cel : CelCompiler) (regex : RegexParser) (renderer : Renderer) where
  compile_rules : Assoc RuleConfig → Assoc Definition → Result (Assoc Definition)
  unfolding put_first
  compile_rules [] out = ok out
  compile_rules ((name, config) ∷ rules) out = elim (trim_space name == "") [
    | true ↦ compile_rules rules out
    | false ↦
        within ("compile rule " +s name) (
          compile_definitions cel regex renderer
            (build_definition_spec (trim_space name) config ∷ []))
        >>= λ defs. compile_rules rules (put_first (trim_space name) defs out)
  ]

  -- compileConfiguredRules
  unfoldable pub compile_configured_rules : Assoc RuleConfig → Result (Assoc Definition)
  unfolding compile_rules
  compile_configured_rules rules = compile_rules rules []
