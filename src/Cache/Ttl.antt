-- ===== src/Cache/Ttl.antt =====
-- internal/runtime/cache/ttl.go: the time for which a rule's result may be kept.
pub mod Ceilings
use pass_ctrl.Prelude.{
  String, Bool, Option, none, some, if◌then◌else◌, ◌==◌, pos, ltb_ℤ, int_eq, ◌&&◌,
}
use pass_ctrl.Assoc.{Assoc, get}
use pass_ctrl.Cache.Duration.{Duration, parse_duration}
use pass_ctrl.Cache.Control.{parse_cache_control, directive_ttl}

pub record RuleCacheTtlConfig : Type 0 where
  pub pass : String
  pub fail : String
  pub error : String

pub record RuleCacheConfig : Type 0 where
  pub follow_cache_control : Bool
  pub ttl : RuleCacheTtlConfig
  pub strict : Option Bool

abbrev pub duration_or_zero : Option Duration → Duration
duration_or_zero none = pos 0
duration_or_zero (some d) = d

parsed_ttl : String → Duration
parsed_ttl text = if text == "" then pos 0 else duration_or_zero (parse_duration text)

-- RuleCacheTTLConfig.GetTTL
unfoldable pub config_ttl : RuleCacheTtlConfig → String → Duration
unfolding parsed_ttl
config_ttl c outcome =
    if outcome == "error"
    then pos 0
    else if outcome == "pass"
    then parsed_ttl c.pass
    else if outcome == "fail"
    then parsed_ttl c.fail
    else pos 0

-- `if ceiling > 0 && ceiling < result { result = ceiling }`
unfoldable pub lower_to : Duration → Duration → Duration
lower_to ceiling result = if ltb_ℤ (pos 0) ceiling && ltb_ℤ ceiling result then ceiling else result

unfoldable pub apply_ttl_ceilings : Duration → Duration → RuleCacheTtlConfig → String → Duration
unfolding lower_to
apply_ttl_ceilings ttl server_max endpoint outcome =
    lower_to server_max (lower_to (config_ttl endpoint outcome) ttl)

-- The backend's Cache-Control TTL, where the rule follows it and the backend gives one.
unfoldable pub backend_ttl : RuleCacheConfig → Assoc String → Option Duration
backend_ttl rule headers =
    if rule.follow_cache_control
    then elim (get "cache-control" headers) [
      | none ↦ none
      | some header ↦ directive_ttl (parse_cache_control header)
    ]
    else none

-- CalculateEffectiveTTL
unfoldable pub calculate_effective_ttl :
    String → Duration → RuleCacheTtlConfig → RuleCacheConfig → Assoc String → Duration
calculate_effective_ttl outcome server_max endpoint rule headers =
    if outcome == "error" then pos 0 else elim (backend_ttl rule headers) [
      | some ttl ↦
          if int_eq ttl (pos 0) then pos 0 else apply_ttl_ceilings ttl server_max endpoint outcome
      | none ↦
          (let ttl = config_ttl rule.ttl outcome in
            if int_eq ttl (pos 0)
            then pos 0
            else apply_ttl_ceilings ttl server_max endpoint outcome)
    ]
