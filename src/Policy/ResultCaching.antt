-- ===== src/Policy/ResultCaching.antt =====
-- internal/runtime/resultcaching/agent.go: keeping the outcome of the rules in a decision cache. Logging and
-- metrics are left out. The clock's reading comes as an argument.
use pass_ctrl.Prelude.{
  ℕ, ◌+◌, ◌*◌, String, true, [], ◌==◌, if◌then◌else◌, pos, leb_ℤ, pos_part, Result, ok, err, Option,
  none, some, ◌≡◌, ◌⊎◌, ◌<◌, ◌≤ℤ◌,
}
use pass_ctrl.Cache.Duration.{Duration}
use pass_ctrl.Cache.Entry.{CachedResponse, Entry}
use pass_ctrl.Cache.Decision.{DecisionCache}
use pass_ctrl.Pipeline.State.{AgentResult, ResponseState, State}

-- DefaultTTL, 30 seconds
abbrev pub default_ttl : Duration
default_ttl = pos 30000000000

-- ResponseFromCache
abbrev pub response_from_cache : CachedResponse → ResponseState
response_from_cache cached = record {
  status = cached.status;
  message = cached.message;
  headers = cached.headers;
  variables = [];
}

-- ResponseToCache
abbrev pub response_to_cache : ResponseState → CachedResponse
response_to_cache response = record {
  status = response.status;
  message = response.message;
  headers = response.headers;
}

-- storedAt.Add(ttl), with the default for a time to live that is not positive
abbrev pub expiry : Duration → ℕ → ℕ
expiry ttl stored_at = stored_at + pos_part (if leb_ℤ ttl (pos 0) then default_ttl else ttl)

abbrev report : String → String → AgentResult
report status details = record { name = "result_caching"; status = status; details = details }

pub keep_stored : Entry → Result (Unit {0}) → State → AgentResult × State
keep_stored e (err text) s = (report "error" "failed to persist decision cache entry", s)
keep_stored e (ok done) s =
    let cache = s.cache in
    (
      report "stored" "decision cached for subsequent requests",
      record s {
        cache = record cache {
          stored = true;
          decision = e.decision;
          stored_at = e.stored_at;
          expires_at = e.expires_at;
        };
      },
    )

unfoldable pub entry_for : Duration → ℕ → State → Entry
entry_for ttl now s = record {
  decision = s.rule.outcome;
  response = response_to_cache s.response;
  stored_at = now;
  expires_at = expiry ttl now;
}

-- Why nothing is stored, if it is not.
pub unkept : State → Option AgentResult
unkept s =
    if s.cache.hit
    then some (report "hit" "decision retrieved from cache")
    else if s.rule.outcome == ""
    then some (report "skipped" "")
    else if s.rule.outcome == "error"
    then some (report "bypassed" "error outcomes are never cached")
    else if s.cache_key == ""
    then some (report "bypassed" "caching disabled for this endpoint")
    else none

pub store_outcome :
    {C : Type 0}
    → Option AgentResult
    → State
    → C
    → AgentResult × State × C
    → AgentResult × State × C
store_outcome (some reported) s c kept = (reported, s, c)
store_outcome none s c kept = kept

-- Execute, with the decision cache that is left behind
unfoldable pub execute_result_caching :
    {C : Type 0} → DecisionCache C → Duration → ℕ → State → C → AgentResult × State × C
execute_result_caching cache ttl now s c =
    let stored = cache.put_in now s.cache_key (entry_for ttl now s) c in
    let kept = keep_stored (entry_for ttl now s) stored.0 s in
    store_outcome (unkept s) s c (kept.0, kept.1, stored.1)

-- The time to live that counts: the agent's where it is positive, and else 30 seconds.
abbrev pub IsLife : Duration → ℕ → Type 0
IsLife ttl life = ((ttl ≡ pos life) × (0 < life)) ⊎ ((ttl ≤ℤ pos 0) × (life ≡ 30 * 1000000000))
