-- ===== src/Config/Types.antt =====
-- internal/config/types.go: the configuration as it is decoded. A pointer that may be nil is an
-- `Option`; `nil` in a header map means that the value is copied from the request.
use pass_ctrl.Prelude.{String, Bool, Option, List, ℤ}
use pass_ctrl.Assoc.{Assoc}
use pass_ctrl.Value.{Value}

pub record ListenConfig : Type 0 where
  pub address : String
  pub port : ℤ

pub record LoggingConfig : Type 0 where
  pub level : String
  pub format : String
  pub correlation_header : String

pub record RulesConfig : Type 0 where
  pub rules_folder : String
  pub rules_file : String

pub record TemplatesConfig : Type 0 where
  pub templates_folder : String

pub record ServerVariablesConfig : Type 0 where
  pub environment : Assoc (Option String)
  pub secrets : Assoc (Option String)

pub record ServerRedisTlsConfig : Type 0 where
  pub enabled : Bool
  pub ca_file : String

pub record ServerRedisCacheConfig : Type 0 where
  pub address : String
  pub username : String
  pub password : String
  pub db : ℤ
  pub tls : ServerRedisTlsConfig

pub record ServerCacheConfig : Type 0 where
  pub backend : String
  pub ttl_seconds : ℤ
  pub key_salt : String
  pub epoch : ℤ
  pub redis : ServerRedisCacheConfig

pub record ServerConfig : Type 0 where
  pub listen : ListenConfig
  pub logging : LoggingConfig
  pub rules : RulesConfig
  pub templates : TemplatesConfig
  pub cache : ServerCacheConfig
  pub variables : ServerVariablesConfig

pub record DefinitionSkip : Type 0 where
  pub kind : String
  pub name : String
  pub reason : String
  pub sources : List String

pub record EndpointAuthAllowConfig : Type 0 where
  pub authorization : List String
  pub header : List String
  pub query : List String
  pub anonymous : Bool

pub record EndpointAuthChallengeConfig : Type 0 where
  pub kind : String
  pub realm : String
  pub charset : String

pub record EndpointAuthResponseConfig : Type 0 where
  pub status : ℤ
  pub headers : Assoc String
  pub body : String
  pub body_file : String

pub record EndpointAuthenticationConfig : Type 0 where
  pub required : Option Bool
  pub allow : EndpointAuthAllowConfig
  pub challenge : EndpointAuthChallengeConfig
  pub response : Option EndpointAuthResponseConfig

pub record EndpointForwardProxyPolicyConfig : Type 0 where
  pub trusted_proxy_ips : List String
  pub development_mode : Bool

pub record EndpointForwardRequestPolicyConfig : Type 0 where
  pub forward_proxy_headers : Bool

pub record EndpointRuleReference : Type 0 where
  pub name : String

pub record EndpointResponseConfig : Type 0 where
  pub status : ℤ
  pub body : String
  pub body_file : String
  pub headers : Assoc (Option String)

pub record EndpointResponsePolicyConfig : Type 0 where
  pub pass : EndpointResponseConfig
  pub fail : EndpointResponseConfig
  pub error : EndpointResponseConfig

pub record EndpointCacheConfig : Type 0 where
  pub result_ttl : String

pub record EndpointConfig : Type 0 where
  pub description : String
  pub variables : Assoc String
  pub authentication : EndpointAuthenticationConfig
  pub forward_proxy_policy : EndpointForwardProxyPolicyConfig
  pub forward_request_policy : EndpointForwardRequestPolicyConfig
  pub rules : List EndpointRuleReference
  pub response_policy : EndpointResponsePolicyConfig
  pub cache : EndpointCacheConfig

pub record RuleAuthMatcher : Type 0 where
  pub kind : String
  pub name : String
  pub value : Option Value
  pub username : Option Value
  pub password : Option Value

pub record RuleForwardAsConfig : Type 0 where
  pub kind : String
  pub token : String
  pub name : String
  pub value : String
  pub user : String
  pub password : String

pub record RuleAuthDirective : Type 0 where
  pub match : List RuleAuthMatcher
  pub forward_as : List RuleForwardAsConfig

pub record RulePaginationConfig : Type 0 where
  pub kind : String
  pub max_pages : ℤ

pub record RuleBackendConfig : Type 0 where
  pub url : String
  pub method : String
  pub forward_proxy_headers : Bool
  pub headers : Assoc (Option String)
  pub query : Assoc (Option String)
  pub body : String
  pub body_file : String
  pub accepted_statuses : List ℤ
  pub pagination : RulePaginationConfig

pub record RuleConditionConfig : Type 0 where
  pub pass : List String
  pub fail : List String
  pub error : List String

pub record RuleResponseConfig : Type 0 where
  pub variables : Assoc String

pub record RuleResponsesConfig : Type 0 where
  pub pass : RuleResponseConfig
  pub fail : RuleResponseConfig
  pub error : RuleResponseConfig

pub record RuleCacheTtlConfig : Type 0 where
  pub pass : String
  pub fail : String
  pub error : String

pub record RuleCacheConfig : Type 0 where
  pub follow_cache_control : Bool
  pub ttl : RuleCacheTtlConfig
  pub strict : Option Bool
  pub include_proxy_headers : Option Bool

pub record RuleConfig : Type 0 where
  pub description : String
  pub auth : List RuleAuthDirective
  pub backend_api : RuleBackendConfig
  pub conditions : RuleConditionConfig
  pub responses : RuleResponsesConfig
  pub variables : Assoc String
  pub cache : RuleCacheConfig

pub record Config : Type 0 where
  pub server : ServerConfig
  pub endpoints : Assoc EndpointConfig
  pub rules : Assoc RuleConfig
  pub inline_endpoints : Assoc EndpointConfig
  pub inline_rules : Assoc RuleConfig
  pub rule_sources : List String
  pub skipped_definitions : List DefinitionSkip
  pub loaded_environment : Assoc String
  pub loaded_secrets : Assoc String
