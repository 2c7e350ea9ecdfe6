-- ===== src/Runtime/RuleCache.antt =====
-- internal/runtime/rule_cache.go: caching the results of a rule. json.Marshal and json.Unmarshal on the
-- entries come as a codec; both give none on an error.
pub mod Storing
use pass_ctrl.Prelude.{
  ℕ, ◌+◌, String, Bool, true, false, not, ◌&&◌, ◌||◌, Option, none, some, List, [], ◌∷◌, ◌++◌,
  if◌then◌else◌, ◌==◌, ltb, leb_ℤ, pos, pos_part, Result, ok, err, is_empty,
}
use pass_ctrl.Text.{join}
use pass_ctrl.Assoc.{Assoc, put, put_all}
use pass_ctrl.Value.{Value}
use pass_ctrl.Cache.Duration.{Duration}
use pass_ctrl.Cache.Entry.{Entry, no_response}
use pass_ctrl.Cache.Decision.{DecisionCache}
use pass_ctrl.Cache.Descriptor.{BackendDescriptor, hash, hash_upstream_variables}
use pass_ctrl.Pipeline.State.{State}

pub record RuleCacheEntry : Type 0 where
  pub outcome : String
  pub reason : String
  pub exported : Assoc Value
  pub headers : Assoc String
  pub stored_at : ℕ
  pub expires_at : ℕ

pub record EntryCodec : Type 0 where
  pub marshal : RuleCacheEntry → Option String
  pub unmarshal : String → Option RuleCacheEntry

-- buildRuleCacheKey
unfoldable pub build_rule_cache_key : String → String → String → String → String
build_rule_cache_key base_key rule_name backend_hash upstream_hash =
    join
      (base_key
        ∷ rule_name
        ∷ backend_hash
        ∷ (if upstream_hash == "" then [] else upstream_hash ∷ []))
      "|"

abbrev pub tracing_headers : List String
tracing_headers =
    "traceparent" ∷ "tracestate" ∷ "x-b3-traceid" ∷ "x-b3-spanid" ∷ "x-b3-parentspanid"
    ∷ "x-b3-sampled" ∷ "x-b3-flags" ∷ "x-cloud-trace-context" ∷ "x-amzn-trace-id" ∷ "uber-trace-id"
    ∷ "x-request-start" ∷ "x-timer" ∷ []

abbrev pub proxy_headers : List String
proxy_headers =
    "forwarded" ∷ "x-forwarded-for" ∷ "x-forwarded-host" ∷ "x-forwarded-proto" ∷ "x-forwarded-port"
    ∷ "x-forwarded-prefix" ∷ "x-real-ip" ∷ "x-original-forwarded-for" ∷ "true-client-ip" ∷ "cf-ray"
    ∷ "cf-connecting-ip" ∷ "cf-ipcountry" ∷ "cf-visitor" ∷ []

-- A *bool that is true where it is nil.
abbrev pub unless_set : Option Bool → Bool
unless_set none = true
unless_set (some b) = b

unfoldable pub exclude_headers : String → Option Bool → List String
exclude_headers correlation_header include_proxy_headers =
    tracing_headers
    ++ (if unless_set include_proxy_headers then [] else proxy_headers)
    ++ (if correlation_header == "" then [] else correlation_header ∷ [])

-- buildBackendHash
unfoldable pub build_backend_hash : BackendDescriptor → String → Option Bool → String
build_backend_hash descriptor correlation_header include_proxy_headers =
    if descriptor.url == ""
    then ""
    else hash (exclude_headers correlation_header include_proxy_headers) descriptor

-- buildUpstreamVarsHash
unfoldable pub build_upstream_vars_hash : (Value → String) → Bool → State → String
build_upstream_vars_hash encode strict s =
    if not strict || is_empty s.variables.rules
    then ""
    else hash_upstream_variables encode s.variables.rules

-- The entry that storeRuleCache makes.
abbrev pub rule_cache_entry :
    ℕ → String → String → Assoc Value → Assoc String → Duration → RuleCacheEntry
rule_cache_entry now outcome reason exported headers ttl = record {
  outcome = outcome;
  reason = reason;
  exported = exported;
  headers = headers;
  stored_at = now;
  expires_at = now + pos_part ttl;
}

-- The check of the time that is read after the lookup.
unfoldable pub fresh_entry : ℕ → Option RuleCacheEntry → Option RuleCacheEntry
fresh_entry now none = none
fresh_entry now (some e) = if ltb e.expires_at now then none else some e

module _ (codec : EntryCodec) where
  unfoldable pub decode_entry : ℕ → Result (Option Entry) → Option RuleCacheEntry
  unfolding fresh_entry
  decode_entry now (err e) = none
  decode_entry now (ok none) = none
  decode_entry now (ok (some e)) = fresh_entry now (codec.unmarshal e.decision)

  -- lookupRuleCache: the time of the cache's own reading, and the one behind it
  unfoldable pub lookup_rule_cache :
      {C : Type 0} → Option (DecisionCache C) → ℕ → ℕ → String → C → Option RuleCacheEntry × C
  lookup_rule_cache none now later key c = (none, c)
  lookup_rule_cache (some cache) now later key c =
      if key == ""
      then (none, c)
      else (decode_entry later (cache.look_up now key c).0, (cache.look_up now key c).1)

  unfoldable pub store_entry :
      {C : Type 0}
      → DecisionCache C
      → ℕ
      → String
      → RuleCacheEntry
      → Option String
      → C
      → Result (Unit {0}) × C
  store_entry cache now key e none c = (err "serialize rule cache entry", c)
  store_entry cache now key e (some text) c =
      cache.put_in now key
        (record {
          decision = text;
          response = no_response;
          stored_at = e.stored_at;
          expires_at = e.expires_at;
        })
        c

  -- storeRuleCache: the time it reads, and the one that the cache reads behind it
  unfoldable pub store_rule_cache :
      {C : Type 0}
      → Option (DecisionCache C)
      → ℕ
      → ℕ
      → String
      → String
      → String
      → Assoc Value
      → Assoc String
      → Duration
      → C
      → Result (Unit {0}) × C
  unfolding store_entry
  store_rule_cache none now later key outcome reason exported headers ttl c = (ok tt, c)
  store_rule_cache (some cache) now later key outcome reason exported headers ttl c =
      if key == "" || leb_ℤ ttl (pos 0) || not (outcome == "pass" || outcome == "fail")
      then (ok tt, c)
      else (let e = rule_cache_entry now outcome reason exported headers ttl in
          store_entry cache later key e (codec.marshal e) c)

-- restoreFromCache
unfoldable pub restore_from_cache : RuleCacheEntry → String → State → State
restore_from_cache e rule_name s =
    let exported = not (is_empty e.exported) in
    let variables = s.variables in
    let rule = s.rule in
    let rule_variables = rule.variables in
    let response = s.response in
    record s {
      variables = record variables {
        rules = if exported then put rule_name e.exported variables.rules else variables.rules;
      };
      rule = record rule {
        variables = record rule_variables {
          exported = if exported then e.exported else rule_variables.exported;
        };
      };
      response = record response { headers = put_all e.headers response.headers };
    }
