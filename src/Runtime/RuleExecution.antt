-- ===== src/Runtime/RuleExecution.antt =====
-- internal/runtime/rule_execution_agent.go: evaluateRule with the rule cache around it. What the agent
-- calls is a record of engines; the world has the decision cache, the network and the clock.
pub mod Rounds
pub mod Passing
use pass_ctrl.Prelude.{
  ℕ, ◌-◌, String, Bool, true, false, not, ◌&&◌, ◌||◌, Option, none, some, List, [], ◌∷◌, ◌++◌,
  if◌then◌else◌, ◌==◌, Result, ok, err, pos, is_empty, is_none,
}
use pass_ctrl.Text.{◌+s◌}
use pass_ctrl.Assoc.{Assoc}
use pass_ctrl.Value.{Value}
use pass_ctrl.Cache.Duration.{Duration}
use pass_ctrl.Cache.Ttl.{RuleCacheTtlConfig, RuleCacheConfig, calculate_effective_ttl}
use pass_ctrl.Cache.Decision.{DecisionCache}
use pass_ctrl.Cache.Descriptor.{BackendDescriptor}
use pass_ctrl.Rulechain.Types.{Program, Definition, ExecutionPlan}
use pass_ctrl.Rulechain.Backend.{is_configured}
use pass_ctrl.Pipeline.State.{AgentResult, RuleHistoryEntry, State, clear_plan}
use pass_ctrl.Runtime.Engine.{TemplateEngine, RegexEngine}
use pass_ctrl.Runtime.RuleAuth.{RuleAuthSelection}
use pass_ctrl.Runtime.RuleAuth.Forwarding.{PreparedAuth, prepare_rule_auth, clear_auth}
use pass_ctrl.Runtime.Conditions.{Verdict, decide, error_verdict, fail_verdict}
use pass_ctrl.Runtime.Variables.{HybridEvaluator, evaluate_rule_variables, finish_rule}
use pass_ctrl.Runtime.BackendInteraction.{RenderedBackendRequest, Web, execute_backend}
use pass_ctrl.Runtime.BackendRequest.{TemplateFiles, render_backend_request}
use pass_ctrl.Runtime.RuleCache.{
  RuleCacheEntry, EntryCodec, build_rule_cache_key, build_backend_hash, build_upstream_vars_hash,
  unless_set, lookup_rule_cache, store_rule_cache, restore_from_cache,
}

-- ruleExecutionAgent
pub record RuleExecutionAgent (W : Type 0) : Type 0 where
  pub render : TemplateEngine
  pub regex : RegexEngine
  pub files : TemplateFiles
  pub eval : State → ℕ → Program → Result Bool
  pub evaluator : Option HybridEvaluator
  pub web : Option (Web W)
  pub encode : Value → String
  pub codec : EntryCodec
  pub cache : Option (DecisionCache W)
  pub server_max_ttl : Duration
  pub correlation_header : String
  pub clock : W → ℕ × W

abbrev pub fresh_rule : State → State
fresh_rule s =
    let rule = s.rule in
    record s {
      backend = record {
        requested = false;
        status = pos 0;
        headers = [];
        body = Value.null;
        body_text = "";
        error = "";
        accepted = false;
        pages = [];
      };
      rule = record rule {
        auth = record { selected = ""; input = []; forward = [] };
        variables = record { rule = []; local = []; exported = [] };
      };
    }

abbrev set_backend_error : String → State → State
set_backend_error e s =
    let backend = s.backend in record s { backend = record backend { error = e } }

abbrev accept_backend : State → State
accept_backend s =
    let backend = s.backend in record s { backend = record backend { accepted = true } }

module _ {W : Type 0} (agent : RuleExecutionAgent W) (def : Definition) where
  -- The key of checkRuleCache and storeRuleCache; "" where the state has no key of its own.
  cache_key : RenderedBackendRequest → State → String
  cache_key rendered s =
      if s.cache_key == ""
      then ""
      else build_rule_cache_key s.cache_key def.name
          (build_backend_hash
            (record {
              method = rendered.method;
              url = rendered.url;
              headers = rendered.headers;
              body = rendered.body;
            })
            agent.correlation_header def.cache.include_proxy_headers)
          (build_upstream_vars_hash agent.encode (unless_set def.cache.strict) s)

  abbrev no_ttl : RuleCacheTtlConfig
  no_ttl = record { pass = ""; fail = ""; error = "" }

  rule_config : RuleCacheConfig
  rule_config = record {
    follow_cache_control = def.cache.follow_cache_control;
    ttl = record {
      pass = def.cache.ttl.pass;
      fail = def.cache.ttl.fail;
      error = def.cache.ttl.error;
    };
    strict = def.cache.strict;
  }

  -- The state is marked as stored where the rule cache reports no error.
  mark_stored : Result (Unit {0}) → State → State
  mark_stored (err e) s = s
  mark_stored (ok done) s =
      let cache = s.cache in record s { cache = record cache { stored = true } }

  -- storeRuleCache, with a cache and a key; the clock is read by the rule cache, and then by the cache.
  store_under : String → Verdict → State → W → State × W
  unfolding rule_config mark_stored
  store_under key verdict s w =
      let ttl =
        calculate_effective_ttl verdict.0 agent.server_max_ttl no_ttl rule_config
          s.backend.headers in
      let first = agent.clock w in
      let second = agent.clock first.1 in
      let stored =
        store_rule_cache agent.codec agent.cache first.0 second.0 key verdict.0 verdict.1
          s.rule.variables.exported s.response.headers ttl second.1 in
      (mark_stored stored.0 s, stored.1)

  store_result : RenderedBackendRequest → Verdict → State → W → State × W
  unfolding cache_key store_under
  store_result rendered verdict s w =
      if is_none agent.cache || cache_key rendered s == ""
      then (s, w)
      else store_under (cache_key rendered s) verdict s w

  -- checkRuleCache; both readings of the clock are taken first.
  check_rule_cache : RenderedBackendRequest → State → W → Option RuleCacheEntry × W
  unfolding cache_key
  check_rule_cache rendered s w =
      let first = agent.clock w in
      let second = agent.clock first.1 in
      lookup_rule_cache agent.codec agent.cache first.0 second.0 (cache_key rendered s) second.1

  mark_hit : RuleCacheEntry → State → State
  mark_hit e s =
      let cache = s.cache in
      record s {
        cache = record cache {
          hit = true;
          decision = e.outcome;
          stored_at = e.stored_at;
          expires_at = e.expires_at;
        };
      }

  -- What evaluateRule returns, with the state and the world it leaves.
  abbrev pub Finished : Type 0
  Finished = Verdict × State × W

  finish : Verdict → State → W → Finished
  finish verdict s w = (verdict, finish_rule agent.evaluator def verdict.0 verdict.1 s, w)

  -- finishRuleWithCache
  finish_with_cache : Option RenderedBackendRequest → Verdict → State → W → Finished
  unfolding store_result finish
  finish_with_cache none verdict s w = finish verdict s w
  finish_with_cache (some rendered) verdict s w =
      let finished = finish_rule agent.evaluator def verdict.0 verdict.1 s in
      let stored = store_result rendered verdict finished w in (verdict, stored.0, stored.1)

  -- evaluateRule from the variables on
  conclude : Option RenderedBackendRequest → Result (Unit {0}) × State → W → Finished
  unfolding finish_with_cache
  conclude rendered (err e, s) w =
      finish_with_cache rendered
        (error_verdict agent.render def s ("variable extraction failed: " +s e)) s w
  conclude rendered (ok done, s) w =
      let read = agent.clock w in
      finish_with_cache rendered (decide agent.render def s (agent.eval s read.0)) s read.1

  -- evaluateRule behind the call of the backend
  after_backend : RenderedBackendRequest → Result (Unit {0}) × State × W → Finished
  unfolding conclude finish_with_cache
  after_backend rendered (err e, s, w) =
      let failed = set_backend_error e s in
      finish_with_cache (some rendered)
        (error_verdict agent.render def failed ("backend request failed: " +s e)) failed w
  after_backend rendered (ok done, s, w) =
      conclude (some rendered) (evaluate_rule_variables agent.evaluator def s) w

  -- evaluateRule behind the lookup in the cache
  after_lookup : RenderedBackendRequest → State → Option RuleCacheEntry × W → Finished
  unfolding after_backend finish mark_hit
  after_lookup rendered s (some e, w) =
      finish (e.outcome, e.reason) (restore_from_cache e def.name (mark_hit e s)) w
  after_lookup rendered s (none, w) =
      after_backend rendered (execute_backend agent.web rendered def.backend s w)

  -- evaluateRule behind the rendering of the request
  after_rendering : State → W → Result RenderedBackendRequest → Finished
  unfolding after_lookup check_rule_cache finish
  after_rendering s w (err e) =
      let failed = set_backend_error e s in
      finish (error_verdict agent.render def failed ("backend render failed: " +s e)) failed w
  after_rendering s w (ok rendered) = after_lookup rendered s (check_rule_cache rendered s w)

  -- evaluateRule behind the choice of credentials
  after_auth : W → PreparedAuth × State → Finished
  unfolding after_rendering finish conclude
  after_auth w (prepared, s) =
      if prepared.status == "fail"
      then finish (fail_verdict agent.render def s prepared.reason) s w
      else if prepared.status == "error"
      then finish (error_verdict agent.render def s prepared.reason) s w
      else if not (prepared.status == "")
      then finish (prepared.status, prepared.reason) s w
      else if is_configured def.backend
      then after_rendering s w
          (render_backend_request agent.render agent.files def.backend prepared.selection s)
      else (let accepted = accept_backend s in
          conclude none (evaluate_rule_variables agent.evaluator def accepted) w)

  -- evaluateRule
  unfoldable pub evaluate_rule : State → W → Finished
  unfolding after_auth
  evaluate_rule s w =
      after_auth w (prepare_rule_auth agent.render agent.regex def.auth (fresh_rule s))
