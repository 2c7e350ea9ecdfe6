-- ===== src/Runtime/RuleExecution/Passing.antt =====
-- When a chain of rules passes.
use pass_ctrl.Prelude.{
  ◌+◌, ◌≡◌, List, [], ◌∷◌, ◌==◌, arith, eq_iff, length, length-append, All, All-append, Bool-cases,
  inl, inr,
}
use pass_ctrl.Rulechain.Types.{Definition}
use pass_ctrl.Pipeline.State.{RuleHistoryEntry}
use pass_ctrl.Runtime.RuleExecution.{RuleExecutionAgent}
use pass_ctrl.Runtime.RuleExecution.Rounds.{Chain, next_chain, run_rule, run_rules}

abbrev pub IsPass : RuleHistoryEntry → Type 0
IsPass entry = entry.outcome ≡ "pass"

module _ {W : Type 0} (agent : RuleExecutionAgent W) (def : Definition) (chain : Chain W) where
  next_chain-IsPass :
      All IsPass chain.history
      → (next_chain agent def chain).verdict.0 ≡ "pass"
      → All IsPass (next_chain agent def chain).history
  unfolding next_chain run_rule
  next_chain-IsPass passed h = All-append IsPass chain.history _ passed (h, tt)

  length-next_chain : length (next_chain agent def chain).history ≡ length chain.history + 1
  unfolding next_chain
  length-next_chain = length-append chain.history _

-- If the loop over the rules ends with the outcome pass, and only passes were in the history when it
-- began, then every rule was run and every entry of the history is a pass.
pub run_rules-IsPass :
    {W : Type 0} (agent : RuleExecutionAgent W) (defs : List Definition) (chain : Chain W)
    → All IsPass chain.history
    → (run_rules agent defs chain).verdict.0 ≡ "pass"
    → All IsPass (run_rules agent defs chain).history
      × (length (run_rules agent defs chain).history ≡ length chain.history + length defs)
unfolding run_rules
run_rules-IsPass agent [] chain passed = λ h. (passed, omega arith)
run_rules-IsPass agent (def ∷ defs) chain passed =
    elim (Bool-cases ((next_chain agent def chain).verdict.0 == "pass")) [
      | inl e ↦ rw e (λ h.
          let passes = (eq_iff (next_chain agent def chain).verdict.0 "pass").0 e in
          let ends =
            run_rules-IsPass agent defs (next_chain agent def chain)
              (next_chain-IsPass agent def chain passed passes) h in
          (ends.0, omega (arith, ends.1, length-next_chain agent def chain)))
      | inr e ↦
          rw e (λ h. let passes = (eq_iff (next_chain agent def chain).verdict.0 "pass").1 h in cc)
    ]
