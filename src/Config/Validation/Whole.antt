-- ===== src/Config/Validation/Whole.antt =====
-- internal/config/types.go: Validate, with the endpoints' authentication, whose providers it writes back
-- trimmed. The text of a duration's parse error is left out of the error.
use pass_ctrl.Prelude.{
  Result, ◌>>=◌, ℕ, String, Bool, true, not, ◌&&◌, ◌||◌, none, some, [], ◌∷◌, ◌==◌, if◌then◌else◌,
  is_empty, map, is_none, pos, leb_ℤ, ltb_ℤ, ok, err, ◌>>◌, reject_if,
}
use pass_ctrl.Text.{◌+s◌, trim_space, to_lower, show_nat}
use pass_ctrl.Assoc.{Assoc}
use pass_ctrl.Cache.Duration.{parse_duration}
use pass_ctrl.Config.Types.{
  Config, EndpointAuthChallengeConfig, EndpointAuthenticationConfig, EndpointConfig,
  RuleCacheConfig, RuleCacheTtlConfig, RuleConfig, ServerCacheConfig, ServerConfig,
}
use pass_ctrl.Config.Validation.{
  Checked, check_each, quote, show_int, validate_auth_directive, validate_backend_headers,
  validate_variable_map,
}

-- IsStrict
unfoldable pub is_strict : RuleCacheConfig → Bool
is_strict c = elim c.strict [ none ↦ true | some strict ↦ strict ]

validate_duration : String → String → Checked
validate_duration place text =
    reject_if (not (text == "") && is_none (parse_duration text))
      (place +s ": invalid duration " +s quote text)

-- validateCacheTTLConfig
unfoldable pub validate_cache_ttl_config : RuleCacheTtlConfig → String → Checked
unfolding validate_duration
validate_cache_ttl_config ttl context = do
  validate_duration (context +s ".pass") ttl.pass
  validate_duration (context +s ".fail") ttl.fail
  validate_duration (context +s ".error") ttl.error

is_provider : String → Bool
is_provider trimmed = trimmed == "basic" || trimmed == "bearer"

provider : String → ℕ → String → Checked
unfolding is_provider
provider place idx text = do
  let trimmed = trim_space (to_lower text)
  let entry = place +s "authorization[" +s show_nat idx +s "]"
  reject_if (trimmed == "") (entry +s " empty")
  reject_if (not (is_provider trimmed)) (entry +s " unsupported: " +s text)

named : String → ℕ → String → Checked
named place idx text = reject_if (trim_space text == "") (place +s "[" +s show_nat idx +s "] empty")

check_challenge : String → EndpointAuthChallengeConfig → Checked
unfolding is_provider
check_challenge place challenge =
    let typ = trim_space (to_lower challenge.kind) in
    if typ == "" then ok tt else (do
      reject_if (not (is_provider typ)) (place +s "type unsupported: " +s challenge.kind)
      reject_if (trim_space challenge.realm == "")
          (place +s "realm required when type is " +s challenge.kind)
      reject_if (typ == "bearer" && not (trim_space challenge.charset == ""))
          (place +s "charset only supported for basic challenges"))

-- validateEndpointAuthentication
unfoldable pub validate_endpoint_authentication :
    String → EndpointAuthenticationConfig → Result EndpointAuthenticationConfig
unfolding provider named check_challenge
validate_endpoint_authentication name auth = do
  let place = "config: endpoint " +s quote name +s " authentication"
  check_each (provider (place +s ".allow.")) 0 auth.allow.authorization
  reject_if
      (is_empty auth.allow.authorization
        && is_empty auth.allow.header
        && is_empty auth.allow.query
        && not auth.allow.anonymous)
      (place +s " allow block requires at least one provider")
  check_each (named (place +s ".allow.header")) 0 auth.allow.header
  check_each (named (place +s ".allow.query")) 0 auth.allow.query
  check_challenge (place +s ".challenge.") auth.challenge
  let allow = auth.allow
  ok (record auth {
    allow = record allow {
      authorization = map (λ text. trim_space (to_lower text)) allow.authorization;
    };
  })

validate_cache_backend : ServerCacheConfig → Checked
validate_cache_backend cache =
    let backend = trim_space (to_lower cache.backend) in
    if backend == "" || backend == "memory"
    then ok tt
    else if backend == "redis"
    then reject_if (trim_space cache.redis.address == "")
        "config: server.cache.redis.address required for redis backend"
    else err ("config: server.cache.backend unsupported: " +s cache.backend)

validate_server : ServerConfig → Checked
unfolding validate_cache_backend
validate_server server = do
  reject_if (leb_ℤ server.listen.port (pos 0) || ltb_ℤ (pos 65535) server.listen.port)
      ("config: listen.port invalid: " +s show_int server.listen.port)
  reject_if (not (server.rules.rules_folder == "") && not (server.rules.rules_file == ""))
      "config: rulesFolder and rulesFile are mutually exclusive"
  reject_if (ltb_ℤ server.cache.ttl_seconds (pos 0))
      ("config: server.cache.ttlSeconds invalid: " +s show_int server.cache.ttl_seconds)
  reject_if (ltb_ℤ server.cache.epoch (pos 0))
      ("config: server.cache.epoch invalid: " +s show_int server.cache.epoch)
  validate_cache_backend server.cache

-- The loop of Validate over the endpoints.
unfoldable pub validate_endpoints : Assoc EndpointConfig → Result (Assoc EndpointConfig)
validate_endpoints [] = ok []
validate_endpoints ((name, endpoint) ∷ endpoints) = do
  authentication ← validate_endpoint_authentication name endpoint.authentication
  validate_variable_map endpoint.variables ("endpoints[" +s name +s "].variables")
  rest ← validate_endpoints endpoints
  ok ((name, record endpoint { authentication = authentication }) ∷ rest)

-- The checks of Validate on a rule.
unfoldable pub validate_rule_config : String → RuleConfig → Checked
validate_rule_config name rule = do
  let place = "rules[" +s name +s "]"
  check_each (validate_auth_directive place) 0 rule.auth
  validate_backend_headers (place +s ".backendApi.headers") rule.backend_api.headers
  validate_cache_ttl_config rule.cache.ttl (place +s ".cache.ttl")
  validate_variable_map rule.variables (place +s ".variables")
  validate_variable_map rule.responses.pass.variables (place +s ".responses.pass.variables")
  validate_variable_map rule.responses.fail.variables (place +s ".responses.fail.variables")
  validate_variable_map rule.responses.error.variables (place +s ".responses.error.variables")

unfoldable pub validate_rules : Assoc RuleConfig → Checked
validate_rules [] = ok tt
validate_rules ((name, rule) ∷ rules) = do validate_rule_config name rule; validate_rules rules

-- Validate, with the configuration that it leaves
unfoldable pub validate : Config → Result Config
unfolding validate_server
validate config = do
  validate_server config.server
  endpoints ← validate_endpoints config.endpoints
  validate_rules config.rules
  ok (record config { endpoints = endpoints })
