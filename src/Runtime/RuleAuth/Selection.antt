-- ===== src/Runtime/RuleAuth/Selection.antt =====
-- Which directive prepareRuleAuth selects, against the admitted credentials.
use pass_ctrl.Prelude.{
  ◌≡◌, ◌⊎◌, refl, String, false, none, some, List, [], ◌∷◌, Bool-cases, inl, inr, All, Result, ok,
  err,
}
use pass_ctrl.Text.{◌+s◌}
use pass_ctrl.Rulechain.Types.{AuthDirective}
use pass_ctrl.Pipeline.State.{AdmissionCredential, State}
use pass_ctrl.Runtime.Engine.{TemplateEngine, RegexEngine}
use pass_ctrl.Runtime.RuleAuth.{
  RuleAuthForward, ExtractedCredentials, extract_credentials, check_all_matchers, auth_input,
}
use pass_ctrl.Runtime.RuleAuth.Matching.{IsSatisfied, check_all_matchers-IsSatisfied_iff}
use pass_ctrl.Runtime.RuleAuth.Forwarding.{
  build_forwards, PreparedAuth, set_auth_input, clear_auth, finish_auth, try_directives,
  prepare_rule_auth,
}

-- The first directive whose matchers are all satisfied, with those in front of it.
pub data FirstSatisfied (regex : RegexEngine) (creds : List AdmissionCredential) (d : AuthDirective)
    : List AuthDirective → Type 0 where
  found :
      {ds : List AuthDirective}
      → All (IsSatisfied regex creds) d.matchers
      → FirstSatisfied regex creds d (d ∷ ds)
  after :
      {d' : AuthDirective} {ds : List AuthDirective}
      → ¬ All (IsSatisfied regex creds) d'.matchers
      → FirstSatisfied regex creds d ds
      → FirstSatisfied regex creds d (d' ∷ ds)

-- What prepareRuleAuth answers once a directive is selected: its forwards, or why there are none.
pub data IsPreparedBy (d : AuthDirective) (extracted : ExtractedCredentials)
    : Result (List RuleAuthForward) → PreparedAuth → Type 0 where
  goes_on :
      {forwards : List RuleAuthForward}
      → IsPreparedBy d extracted (ok forwards) (record {
        selection = some (record { directive = d; extracted = extracted; forwards = forwards });
        status = "";
        reason = "";
      })
  fails :
      {e : String}
      → IsPreparedBy d extracted (err e) (record {
        selection = none;
        status = "error";
        reason = "rule authentication forward failed: " +s e;
      })

module _ (render : TemplateEngine) (regex : RegexEngine) (creds : List AdmissionCredential) where
  abbrev pub Outcome : List AuthDirective → State → PreparedAuth → Type 0
  Outcome ds s answer =
      (All (λ d. ¬ All (IsSatisfied regex creds) d.matchers) ds
        × (answer.status ≡ "fail")
        × (answer.selection ≡ none))
      ⊎ ((d : AuthDirective) × FirstSatisfied regex creds d ds
          × IsPreparedBy d (extract_credentials creds)
              (build_forwards render (set_auth_input (auth_input (extract_credentials creds)) s) d
                (extract_credentials creds))
              answer)

  finish_auth-IsPreparedBy :
      (d : AuthDirective) (s : State) (r : Result (List RuleAuthForward))
      → IsPreparedBy d
          (extract_credentials creds)
          r
          (finish_auth d (extract_credentials creds) s r).0
  unfolding finish_auth
  finish_auth-IsPreparedBy d s (ok forwards) = goes_on
  finish_auth-IsPreparedBy d s (err e) = fails

  later :
      (d : AuthDirective) (ds : List AuthDirective) (s : State) {answer : PreparedAuth}
      → ¬ All (IsSatisfied regex creds) d.matchers
      → Outcome ds s answer
      → Outcome (d ∷ ds) s answer
  later d ds s unsatisfied (inl h) = inl ((unsatisfied, h.0), h.1, h.2)
  later d ds s unsatisfied (inr h) = inr (h.0, after unsatisfied h.1, h.2)

  try_directives-Outcome :
      (ds : List AuthDirective) (s : State)
      → Outcome ds s (try_directives render regex (extract_credentials creds) ds s).0
  unfolding try_directives
  try_directives-Outcome [] s = inl (tt, refl, refl)
  try_directives-Outcome (d ∷ ds) s =
      elim (Bool-cases (check_all_matchers regex d.matchers (extract_credentials creds))) [
        | inl h ↦ rw h (
            inr (
              d,
              found ((check_all_matchers-IsSatisfied_iff regex creds d.matchers).0 h),
              finish_auth-IsPreparedBy d prepared
                  (build_forwards render prepared d (extract_credentials creds)),
            ))
        | inr h ↦ rw h (later d ds s (refused h) (try_directives-Outcome ds s))
      ]
    where
      prepared : State
      prepared = set_auth_input (auth_input (extract_credentials creds)) s

      refused :
          check_all_matchers regex d.matchers (extract_credentials creds) ≡ false
          → ¬ All (IsSatisfied regex creds) d.matchers
      refused h satisfied =
          let accepted = (check_all_matchers-IsSatisfied_iff regex creds d.matchers).1 satisfied in
          cc

-- prepareRuleAuth on a rule with directives, against the credentials that were admitted. If no
-- directive has all its matchers satisfied, the rule fails and nothing is selected. Otherwise the
-- first such directive decides: the rule goes on with this directive and the forwards built from it,
-- or it is an error, with nothing selected, if building a forward is one.
pub prepare_rule_auth-Outcome :
    (render : TemplateEngine) (regex : RegexEngine) (d : AuthDirective) (ds : List AuthDirective)
    (s : State)
    → Outcome render regex s.admission.credentials
        (d ∷ ds)
        (clear_auth s)
        (prepare_rule_auth render regex (d ∷ ds) s).0
unfolding prepare_rule_auth
prepare_rule_auth-Outcome render regex d ds s =
    try_directives-Outcome render regex s.admission.credentials (d ∷ ds) (clear_auth s)
