-- ===== src/Cache/Ttl/Ceilings.antt =====
-- The effective TTL is the least of the requested one and of the ceilings above it.
use pass_ctrl.Prelude.{
  String, ◌≡◌, true, Option, none, some, arith, eq_iff, pos, ◌≤ℤ◌, ◌<ℤ◌, int_eq, int_eq_iff, ◌⊎◌,
  inl, inr, Option-cases, ◌==◌, if◌then◌else◌, Any,
}
use pass_ctrl.Assoc.{Assoc, get}
use pass_ctrl.Text.{split}
use pass_ctrl.Cache.Duration.{Duration}
use pass_ctrl.Cache.Control.Flags.{IsForbidding, directive_ttl-forbidding}
use pass_ctrl.Cache.Ttl.{
  RuleCacheTtlConfig, RuleCacheConfig, config_ttl, apply_ttl_ceilings, backend_ttl,
  calculate_effective_ttl,
}

abbrev pub or_else : Option Duration → Duration → Duration
or_else none d = d
or_else (some ttl) d = ttl

-- What asks for caching: the backend's header if it is followed and says something, and else the
-- rule's own setting.
abbrev pub requested_ttl : RuleCacheConfig → String → Assoc String → Duration
requested_ttl rule outcome headers =
    or_else (backend_ttl rule headers) (config_ttl rule.ttl outcome)

-- A ceiling counts when it is positive.
abbrev pub Within : Duration → Duration → Type 0
Within ceiling ttl = (ceiling ≤ℤ pos 0) ⊎ (ttl ≤ℤ ceiling)

-- `ttl` is the least of `request` and of those of the two ceilings that are positive.
pub record IsLeast (request endpoint server ttl : Duration) : Type 0 where
  pub within_request : ttl ≤ℤ request
  pub within_endpoint : Within endpoint ttl
  pub within_server : Within server ttl
  pub is_one :
      (ttl ≡ request)
      ⊎ ((pos 0 <ℤ endpoint) × (ttl ≡ endpoint))
      ⊎ ((pos 0 <ℤ server) × (ttl ≡ server))

calculate_effective_ttl_lem :
    (outcome : String) (server : Duration) (endpoint : RuleCacheTtlConfig) (rule : RuleCacheConfig)
    (headers : Assoc String)
    → calculate_effective_ttl outcome server endpoint rule headers ≡ (
        if outcome == "error"
        then pos 0
        else if int_eq (requested_ttl rule outcome headers) (pos 0)
        then pos 0
        else apply_ttl_ceilings (requested_ttl rule outcome headers) server endpoint outcome)
unfolding calculate_effective_ttl
calculate_effective_ttl_lem outcome server endpoint rule headers =
    elim (Option-cases (backend_ttl rule headers)) [
      | inl e ↦ rw (e, calculate_effective_ttl)
      | inr (ttl, e) ↦ rw (e, calculate_effective_ttl)
    ]

-- The effective TTL is zero for an error, and where nothing asks for caching.
pub calculate_effective_ttl-zero :
    (outcome : String) (server : Duration) (endpoint : RuleCacheTtlConfig) (rule : RuleCacheConfig)
    (headers : Assoc String)
    → (outcome ≡ "error") ⊎ (requested_ttl rule outcome headers ≡ pos 0)
    → calculate_effective_ttl outcome server endpoint rule headers ≡ pos 0
calculate_effective_ttl-zero outcome server endpoint rule headers h = ground (
  arith,
  calculate_effective_ttl_lem outcome server endpoint rule headers,
  eq_iff outcome "error",
  int_eq_iff (requested_ttl rule outcome headers) (pos 0),
)

-- Where the rule follows Cache-Control, a cache-control header of the backend with a part that forbids
-- caching gives the TTL zero, for every outcome and every other setting.
pub calculate_effective_ttl-forbidding :
    (outcome : String) (server : Duration) (endpoint : RuleCacheTtlConfig) (rule : RuleCacheConfig)
    (headers : Assoc String) (header : String)
    → rule.follow_cache_control ≡ true
    → get "cache-control" headers ≡ some header
    → Any IsForbidding (split header b',')
    → calculate_effective_ttl outcome server endpoint rule headers ≡ pos 0
unfolding backend_ttl
calculate_effective_ttl-forbidding outcome server endpoint rule headers header follow there forbid =
    calculate_effective_ttl-zero outcome server endpoint rule headers
      (inr (ground (arith, directive_ttl-forbidding header forbid)))
