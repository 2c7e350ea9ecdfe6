-- ===== src/Runtime/Conditions.antt =====
-- internal/runtime/rule_execution_agent.go: how the conditions of a rule decide its outcome, which are
-- evaluateProgramList, ruleMessage and the end of evaluateRule. CEL's evaluation of a program on
-- an activation comes as an argument; the activation is built from the state and the time.
pub mod Decision
use pass_ctrl.Prelude.{
  ℕ, String, Bool, true, false, not, ◌&&◌, Option, none, some, List, [], ◌∷◌, ◌++◌, if◌then◌else◌,
  ◌==◌, Result, ok, err, ℤ, pos, negsuc, suc, is_empty, int_eq,
}
use pass_ctrl.Text.{◌+s◌, trim_space, join, show_nat}
use pass_ctrl.Rulechain.Types.{Template, Program, Definition}
use pass_ctrl.Pipeline.State.{State}
use pass_ctrl.Runtime.Engine.{TemplateEngine}

-- Program.EvalBool on one activation
abbrev pub Evaluator : Type 0
Evaluator = Program → Result Bool

-- The three values of evaluateProgramList, as far as its callers tell them apart.
pub data ProgramResult : Type 0 where
  matched : String → ProgramResult
  unmatched : ProgramResult
  broken : String → String → ProgramResult

-- One program of the loop that looks for a program that holds, with the rest of the loop.
first_match : String → Result Bool → ProgramResult → ProgramResult
first_match source (err e) rest = broken source e
first_match source (ok true) rest = matched source
first_match source (ok false) rest = rest

-- evaluateProgramList(programs, activation, false)
unfoldable pub evaluate_any : Evaluator → List Program → ProgramResult
unfolding first_match
evaluate_any eval [] = unmatched
evaluate_any eval (p ∷ ps) = first_match p.source (eval p) (evaluate_any eval ps)

-- One program of the loop that wants every program to hold, with the rest of the loop.
next_match : String → Result Bool → ProgramResult → ProgramResult
next_match source (err e) rest = broken source e
next_match source (ok false) rest = unmatched
next_match source (ok true) rest = rest

evaluate_each : Evaluator → List String → List Program → ProgramResult
unfolding next_match
evaluate_each eval sources [] = matched (join sources " && ")
evaluate_each eval sources (p ∷ ps) =
    next_match p.source (eval p) (evaluate_each eval (sources ++ p.source ∷ []) ps)

-- evaluateProgramList(programs, activation, true)
unfoldable pub evaluate_all : Evaluator → List Program → ProgramResult
unfolding evaluate_each
evaluate_all eval ps = if is_empty ps then unmatched else evaluate_each eval [] ps

message_or : String → String → String
message_or message fallback = if trim_space message == "" then fallback else trim_space message

rendered_or : Result String → String → String
rendered_or (err e) otherwise = otherwise
rendered_or (ok text) otherwise = if trim_space text == "" then otherwise else trim_space text

-- ruleMessage
unfoldable pub rule_message : TemplateEngine → Option Template → String → String → State → String
unfolding message_or rendered_or
rule_message render none message fallback s = message_or message fallback
rule_message render (some template) message fallback s =
    rendered_or (render template s) (message_or message fallback)

-- the verb %d of fmt
unfoldable pub show_int : ℤ → String
show_int (pos n) = show_nat n
show_int (negsuc n) = "-" +s show_nat (suc n)

-- An outcome and its reason.
abbrev pub Verdict : Type 0
Verdict = String × String

module _ (render : TemplateEngine) (def : Definition) (s : State) where
  abbrev pub pass_verdict : String → Verdict
  pass_verdict fallback =
      ("pass", rule_message render def.pass_template def.pass_message fallback s)

  abbrev pub fail_verdict : String → Verdict
  fail_verdict fallback =
      ("fail", rule_message render def.fail_template def.fail_message fallback s)

  abbrev pub error_verdict : String → Verdict
  error_verdict fallback =
      ("error", rule_message render def.error_template def.error_message fallback s)

  -- A list of conditions, and what follows where none of it settles the outcome.
  settle : String → (String → Verdict) → ProgramResult → Verdict → Verdict
  settle name on_match (broken source e) rest =
      ("error", name +s " condition " +s source +s " evaluation failed: " +s e)
  settle name on_match (matched source) rest = on_match source
  settle name on_match unmatched rest = rest

  unaccepted_reason : String
  unaccepted_reason =
      if int_eq s.backend.status (pos 0)
      then "backend response not accepted"
      else "backend response not accepted: status " +s show_int s.backend.status

  -- evaluateRule without conditions that settle the outcome
  unsettled : Verdict
  unfolding unaccepted_reason
  unsettled =
      if not (is_empty def.conditions.pass)
      then fail_verdict "required pass condition not satisfied"
      else if not (def.backend.url == "") && not s.backend.accepted
      then fail_verdict unaccepted_reason
      else pass_verdict "rule evaluated without explicit outcome"

  -- evaluateRule, from the conditions on: what it hands to finishRuleWithCache
  unfoldable pub decide : Evaluator → Verdict
  unfolding settle unsettled
  decide eval =
      settle "error" (λ source. error_verdict ("error condition matched: " +s source))
        (evaluate_any eval def.conditions.error)
        (settle "fail" (λ source. fail_verdict ("fail condition matched: " +s source))
          (evaluate_any eval def.conditions.fail)
          (settle "pass" (λ source. pass_verdict ("pass conditions satisfied: " +s source))
            (evaluate_all eval def.conditions.pass) unsettled))
