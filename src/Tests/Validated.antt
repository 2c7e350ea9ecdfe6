-- ===== src/Tests/Validated.antt =====
-- The validation of a configuration with one rule.
use pass_ctrl.Prelude.{◌≡◌, refl, false, none, some, [], ◌∷◌, All, pos, ok}
use pass_ctrl.Text.{trim_space, to_lower, lower_char}
use pass_ctrl.Value.{str}
use pass_ctrl.Config.Types.{Config, RuleConfig}
use pass_ctrl.Config.Constraints.{parse_value_constraint}
use pass_ctrl.Config.Validation.{
  build_forward_key, check_each, validate_auth_directive, validate_auth_matcher,
  validate_backend_headers, validate_forward_as_array, validate_variable_map,
}
use pass_ctrl.Config.Validation.Whole.{
  validate, validate_cache_ttl_config, validate_endpoint_authentication, validate_endpoints,
  validate_rule_config, validate_rules,
}
use pass_ctrl.Config.Validation.Accepted.{IsValidRule, validate-IsValidRule}
use pass_ctrl.Service.Rules.Kept.{IsKept, validate-IsKept}
use pass_ctrl.Tests.Configuration.{endpoint, rule}

abbrev keyed_rule : RuleConfig
keyed_rule = record rule {
  auth =
      record {
        match =
            record {
              kind = "Header";
              name = "X-Key";
              value = some (str "k");
              username = none;
              password = none;
            }
            ∷ [];
        forward_as =
            record { kind = "bearer"; token = "t"; name = ""; value = ""; user = ""; password = "" }
            ∷ [];
      }
      ∷ [];
  cache = record {
    follow_cache_control = false;
    ttl = record { pass = ""; fail = ""; error = "" };
    strict = none;
    include_proxy_headers = none;
  };
}

abbrev configured : Config
configured = record {
  server = record {
    listen = record { address = ""; port = pos 8080 };
    logging = record { level = ""; format = ""; correlation_header = "" };
    rules = record { rules_folder = ""; rules_file = "" };
    templates = record { templates_folder = "" };
    cache = record {
      backend = "memory";
      ttl_seconds = pos 30;
      key_salt = "";
      epoch = pos 1;
      redis = record {
        address = "";
        username = "";
        password = "";
        db = pos 0;
        tls = record { enabled = false; ca_file = "" };
      };
    };
    variables = record { environment = []; secrets = [] };
  };
  endpoints = ("main", endpoint) ∷ [];
  rules = ("lookup", keyed_rule) ∷ [];
  inline_endpoints = [];
  inline_rules = [];
  rule_sources = [];
  skipped_definitions = [];
  loaded_environment = [];
  loaded_secrets = [];
}

configured-valid : validate configured ≡ ok configured
unfolding validate validate_endpoints validate_rules validate_rule_config
    validate_endpoint_authentication validate_cache_ttl_config check_each validate_auth_directive
    validate_auth_matcher validate_forward_as_array build_forward_key validate_backend_headers
    validate_variable_map parse_value_constraint trim_space to_lower lower_char
configured-valid = refl

validate-IsValidRule_example : All (λ entry. IsValidRule entry.1) configured.rules
validate-IsValidRule_example = validate-IsValidRule configured configured configured-valid

validate-IsKept_example : All (λ entry. IsKept entry.1) configured.rules
validate-IsKept_example = validate-IsKept configured configured configured-valid
