-- ===== src/Runtime/RuleExecution/Rounds.antt =====
-- internal/runtime/rule_execution_agent.go: Execute, the loop over the rules of a plan.
use pass_ctrl.Prelude.{
  ℕ, ◌-◌, false, not, ◌||◌, Option, none, some, List, [], ◌∷◌, ◌++◌, if◌then◌else◌, ◌==◌, is_empty,
}
use pass_ctrl.Rulechain.Types.{Definition, ExecutionPlan}
use pass_ctrl.Pipeline.State.{AgentResult, RuleHistoryEntry, State, clear_plan}
use pass_ctrl.Runtime.Conditions.{Verdict}
use pass_ctrl.Runtime.RuleExecution.{RuleExecutionAgent, evaluate_rule}

abbrev reset_cache : State → State
reset_cache s =
    let cache = s.cache in
    record s {
      cache = record cache {
        hit = false;
        decision = "";
        stored_at = 0;
        expires_at = 0;
        stored = false;
      };
    }

abbrev pub entry_of : Definition → Verdict → ℕ → State → RuleHistoryEntry
entry_of def verdict duration s = record {
  name = def.name;
  outcome = verdict.0;
  reason = verdict.1;
  duration = duration;
  variables = s.rule.variables.rule;
  from_cache = s.cache.hit;
}

abbrev set_verdict : Verdict → State → State
set_verdict verdict s =
    let rule = s.rule in record s { rule = record rule { outcome = verdict.0; reason = verdict.1 } }

-- What the loop of Execute has in the end: the last outcome and reason, and the history.
pub record Chain (W : Type 0) : Type 0 where
  pub verdict : Verdict
  pub history : List RuleHistoryEntry
  pub state : State
  pub world : W

module _ {W : Type 0} (agent : RuleExecutionAgent W) where
  -- One round: the rule's outcome, its entry, the state and the world behind it.
  unfoldable pub run_rule : Definition → State → W → Verdict × RuleHistoryEntry × State × W
  run_rule def s w =
      let start = agent.clock w in
      let done = evaluate_rule agent def (reset_cache s) start.1 in
      let end_time = agent.clock done.2 in
      (
        done.0,
        entry_of def done.0 (end_time.0 - start.0) done.1,
        set_verdict done.0 done.1,
        end_time.1,
      )

  unfoldable pub next_chain : Definition → Chain W → Chain W
  next_chain def chain =
      let round = run_rule def chain.state chain.world in
      record {
        verdict = round.0;
        history = chain.history ++ round.1 ∷ [];
        state = round.2;
        world = round.3;
      }

  -- The loop of Execute, which goes on behind a rule that passes.
  unfoldable pub run_rules : List Definition → Chain W → Chain W
  run_rules [] chain = chain
  run_rules (def ∷ defs) chain =
      let rest = run_rules defs (next_chain def chain) in
      if (next_chain def chain).verdict.0 == "pass" then rest else next_chain def chain

no_rules : State → State
no_rules s =
    let rule = s.rule in
    record s {
      rule = record rule {
        executed = false;
        outcome = "pass";
        reason = "no rules defined";
        history = [];
      };
    }

finish_chain : {W : Type 0} → Chain W → AgentResult × State × W
finish_chain chain =
    let s = chain.state in
    let rule = s.rule in
    (
      record {
        name = "rule_execution";
        status = if chain.verdict.0 == "" then "error" else chain.verdict.0;
        details = chain.verdict.1;
      },
      clear_plan (record s {
        rule = record rule {
          executed = not (is_empty chain.history);
          history = chain.history;
          outcome = chain.verdict.0;
          reason = chain.verdict.1;
        };
      }),
      chain.world,
    )

abbrev planned : Option ExecutionPlan → List Definition
planned none = []
planned (some plan) = plan.rules

-- Execute; with a rule in the plan the loop's history is never empty.
unfoldable pub execute : {W : Type 0} → RuleExecutionAgent W → State → W → AgentResult × State × W
unfolding no_rules finish_chain
execute agent s w =
    if s.rule.from_cache || not s.rule.should_execute
    then (
      record {
        name = "rule_execution";
        status = "skipped";
        details = "no live rule evaluation required";
      },
      s,
      w,
    )
    else if is_empty (planned s.plan)
    then (
      record { name = "rule_execution"; status = "pass"; details = "no rules defined" },
      no_rules s,
      w,
    )
    else finish_chain (
        run_rules agent (planned s.plan)
          (record { verdict = ("", ""); history = []; state = s; world = w }))
