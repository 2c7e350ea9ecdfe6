-- ===== src/Runtime/Conditions/Decision.antt =====
-- When the conditions of a rule let a request pass.
use pass_ctrl.Prelude.{
  ◌≡◌, ◌≢◌, ◌⊎◌, ◌↔◌, refl, String, Bool, true, false, List, [], ◌∷◌, ◌++◌, ok, All, arith, eq_iff,
}
use pass_ctrl.Text.{◌+s◌}
use pass_ctrl.Rulechain.Types.{Program, Definition}
use pass_ctrl.Pipeline.State.{State}
use pass_ctrl.Runtime.Engine.{TemplateEngine}
use pass_ctrl.Runtime.Conditions.{
  Evaluator, ProgramResult, matched, unmatched, broken, evaluate_any, evaluate_each, evaluate_all,
  decide, Verdict, settle, unsettled, pass_verdict, fail_verdict, error_verdict,
}

-- A result that lets the list that follows decide; a result that settles for the list's own outcome.
abbrev is_unmatched : ProgramResult → Bool
is_unmatched (matched source) = false
is_unmatched unmatched = true
is_unmatched (broken source e) = false

abbrev is_matched : ProgramResult → Bool
is_matched (matched source) = true
is_matched unmatched = false
is_matched (broken source e) = false

module _ (eval : Evaluator) where
  evaluate_any_iff :
      (ps : List Program)
      → (is_unmatched (evaluate_any eval ps) ≡ true) ↔ All (λ p. eval p ≡ ok false) ps
  unfolding evaluate_any
  evaluate_any_iff [] = ground arith
  evaluate_any_iff (p ∷ ps) = ground (arith, evaluate_any_iff ps)

  evaluate_each_iff :
      (sources : List String) (ps : List Program)
      → (is_matched (evaluate_each eval sources ps) ≡ true) ↔ All (λ p. eval p ≡ ok true) ps
  unfolding evaluate_each
  evaluate_each_iff sources [] = ground arith
  evaluate_each_iff sources (p ∷ ps) =
      ground (arith, evaluate_each_iff (sources ++ p.source ∷ []) ps)

  evaluate_all_iff :
      (ps : List Program)
      → (is_matched (evaluate_all eval ps) ≡ true) ↔ ((ps ≢ []) × All (λ p. eval p ≡ ok true) ps)
  unfolding evaluate_all
  evaluate_all_iff [] = ground arith
  evaluate_all_iff (p ∷ ps) = ground (arith, evaluate_each_iff [] (p ∷ ps))

module _ (render : TemplateEngine) (def : Definition) (s : State) (eval : Evaluator) where
  -- Every error and fail condition is evaluated to false.
  abbrev pub IsUnopposed : Type 0
  IsUnopposed =
      All (λ p. eval p ≡ ok false) def.conditions.error
      × All (λ p. eval p ≡ ok false) def.conditions.fail

  -- Every pass condition is evaluated to true, or there is none and the backend accepts the request if
  -- the rule has one.
  abbrev pub IsSupported : Type 0
  IsSupported =
      ((def.conditions.pass ≢ []) × All (λ p. eval p ≡ ok true) def.conditions.pass)
      ⊎ ((def.conditions.pass ≡ []) × ((def.backend.url ≡ "") ⊎ (s.backend.accepted ≡ true)))

  unsettled-pass_iff :
      ((unsettled render def s).0 ≡ "pass")
      ↔ ((def.conditions.pass ≡ []) × ((def.backend.url ≡ "") ⊎ (s.backend.accepted ≡ true)))
  unfolding unsettled
  unsettled-pass_iff = ground (arith, eq_iff def.backend.url "", eq_iff "fail" "pass")

  settled : ProgramResult → ProgramResult → ProgramResult → Verdict → Verdict
  settled r1 r2 r3 rest =
      settle render def s "error"
        (λ source. error_verdict render def s ("error condition matched: " +s source)) r1
        (settle render def s "fail"
          (λ source. fail_verdict render def s ("fail condition matched: " +s source)) r2
          (settle render def s "pass"
            (λ source. pass_verdict render def s ("pass conditions satisfied: " +s source)) r3
            rest))

  settled-pass_iff :
      (r1 r2 r3 : ProgramResult) (rest : Verdict)
      → ((settled r1 r2 r3 rest).0 ≡ "pass") ↔ (
          (is_unmatched r1 ≡ true)
          × (is_unmatched r2 ≡ true)
          × ((is_matched r3 ≡ true) ⊎ ((is_unmatched r3 ≡ true) × (rest.0 ≡ "pass"))))
  unfolding settled settle
  settled-pass_iff (matched source) r2 r3 rest = ground (arith, eq_iff "error" "pass")
  settled-pass_iff (broken source e) r2 r3 rest = ground (arith, eq_iff "error" "pass")
  settled-pass_iff unmatched (matched source) r3 rest = ground (arith, eq_iff "fail" "pass")
  settled-pass_iff unmatched (broken source e) r3 rest = ground (arith, eq_iff "error" "pass")
  settled-pass_iff unmatched unmatched (matched source) rest = ground arith
  settled-pass_iff unmatched unmatched (broken source e) rest =
      ground (arith, eq_iff "error" "pass")
  settled-pass_iff unmatched unmatched unmatched rest = ground arith

  decide-settled :
      decide render def s eval
      ≡ settled
          (evaluate_any eval def.conditions.error)
          (evaluate_any eval def.conditions.fail)
          (evaluate_all eval def.conditions.pass)
          (unsettled render def s)
  unfolding decide settled
  decide-settled = refl

  evaluate_all-empty :
      def.conditions.pass ≡ [] → is_unmatched (evaluate_all eval def.conditions.pass) ≡ true
  unfolding evaluate_all
  evaluate_all-empty h = rw h

  -- The conditions let a request pass exactly when every error and fail condition is evaluated to
  -- false and either there are pass conditions and all are evaluated to true, or there are none and
  -- the rule has no backend or its response was accepted.
  pub decide-pass_iff : ((decide render def s eval).0 ≡ "pass") ↔ (IsUnopposed × IsSupported)
  decide-pass_iff = rw decide-settled (
      ground (
        arith,
        settled-pass_iff (evaluate_any eval def.conditions.error)
            (evaluate_any eval def.conditions.fail) (evaluate_all eval def.conditions.pass)
            (unsettled render def s),
        unsettled-pass_iff,
        evaluate_any_iff eval def.conditions.error,
        evaluate_any_iff eval def.conditions.fail,
        evaluate_all_iff eval def.conditions.pass,
        evaluate_all-empty,
      ))
