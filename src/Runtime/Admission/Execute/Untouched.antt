-- ===== src/Runtime/Admission/Execute/Untouched.antt =====
-- What an admission does to the response, and to the state of the rules.
use pass_ctrl.Prelude.{
  ℕ, ◌≡◌, ◌⊎◌, refl, ◌∙◌, ap, Bool, true, false, inl, inr, Bool-cases, is_empty,
}
use pass_ctrl.Pipeline.State.{State}
use pass_ctrl.Runtime.Engine.{TemplateEngine}
use pass_ctrl.Runtime.Admission.{Network, AdmissionAgent}
use pass_ctrl.Runtime.Admission.Proxy.{Visit, check_proxies}
use pass_ctrl.Runtime.Admission.Proxy.Untouched.{check_proxies-IsAside}
use pass_ctrl.Runtime.Admission.Credentials.{collect_credentials}
use pass_ctrl.Runtime.Admission.Failure.Rendering.{refusal_status, render_admission_failure-status}
use pass_ctrl.Runtime.Admission.Execute.{begun, check_credentials, admit, execute_admission, finish}

module _ {Addr Prefix : Type 0} (net : Network Addr Prefix) (engine : TemplateEngine)
    (agent : AdmissionAgent Prefix) where
  -- The status of the response is as it was, or that of a refusal.
  abbrev pub HasStatus : State → State → Type 0
  HasStatus s t =
      (t.response.status ≡ s.response.status)
      ⊎ (t.response.status ≡ refusal_status agent.config.response)

  check_credentials-HasStatus :
      (v : Visit) → HasStatus v.state (check_credentials net engine agent v)
  unfolding check_credentials
  check_credentials-HasStatus v =
      elim (Bool-cases (is_empty (collect_credentials agent.config.allow v.request))) [
        | inr e ↦ inl (simp e refl)
        | inl e ↦ elim (Bool-cases agent.config.required) [
          | inr q ↦ inl (simp (e, q) refl)
          | inl q ↦ inr (simp (e, q) (render_admission_failure-status engine agent _))
        ]
      ]

  admit-HasStatus :
      (goes_on : Bool) (v : Visit) → HasStatus v.state (admit net engine agent (goes_on, v)).1.state
  unfolding admit finish
  admit-HasStatus true v = check_credentials-HasStatus v
  admit-HasStatus false v = inl refl

  -- After an admission the status of the response is as it was, or that of a refusal.
  pub execute_admission-HasStatus :
      (now : ℕ) (v : Visit) → HasStatus v.state (execute_admission net engine agent now v).1.state
  unfolding execute_admission
  execute_admission-HasStatus now v =
      let answer = check_proxies net agent (begun net engine agent now v) in
      let aside = (check_proxies-IsAside net agent (begun net engine agent now v)).0 in
      elim (admit-HasStatus answer.0 answer.1) [
        | inl e ↦ inl (e ∙ ap (λ r. r.status) aside)
        | inr e ↦ inr e
      ]
