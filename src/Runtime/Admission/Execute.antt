-- ===== src/Runtime/Admission/Execute.antt =====
-- The admission of a request: the proxies first, then the credentials.
pub mod Verdict
pub mod Untouched
use pass_ctrl.Prelude.{
  ℕ, String, Bool, true, false, Option, none, some, List, [], ◌∷◌, if◌then◌else◌, ◌==◌, is_empty,
  not, ◌&&◌,
}
use pass_ctrl.Text.{◌+s◌, trim_space}
use pass_ctrl.Http.{header_get}
use pass_ctrl.Pipeline.State.{AdmissionAllow, AdmissionState, AgentResult, HttpRequest, State}
use pass_ctrl.Runtime.Engine.{TemplateEngine}
use pass_ctrl.Runtime.Admission.{Network, AllowConfig, AdmissionAgent}
use pass_ctrl.Runtime.Admission.Proxy.{Visit, in_admission, remote_host, check_proxies}
use pass_ctrl.Runtime.Admission.Credentials.{collect_credentials}
use pass_ctrl.Runtime.Admission.Failure.{render_admission_failure}

-- annotateReason
unfoldable pub annotate_reason : String → String → String
annotate_reason base note =
    let text = trim_space note in if text == "" then base else base +s " (" +s text +s ")"

-- admissionAllowSnapshot
abbrev pub admission_allow_snapshot : AllowConfig → AdmissionAllow
admission_allow_snapshot allow = record {
  authorization = allow.authorization;
  header = allow.header;
  query = allow.query;
  anonymous = allow.anonymous;
}

-- finish: the decision, and what the agent reports
unfoldable pub finish : String → State → AgentResult × State
finish status s =
    let decision = if s.admission.authenticated then "pass" else "fail" in
    (
      record {
        name = "admission";
        status = if status == "" then decision else status;
        details = s.admission.reason;
      },
      in_admission (λ a. record a { decision = decision }) s,
    )

module _ {Addr Prefix : Type 0} (net : Network Addr Prefix) (engine : TemplateEngine)
    (agent : AdmissionAgent Prefix) where
  -- The fields that Execute sets first.
  unfoldable pub begin_admission : ℕ → HttpRequest → AdmissionState → AdmissionState
  begin_admission now r a = record a {
    captured_at = now;
    trusted_proxy = false;
    proxy_stripped = false;
    proxy_note = "";
    forwarded_for = trim_space (header_get "X-Forwarded-For" r.headers);
    forwarded = trim_space (header_get "Forwarded" r.headers);
    client_ip = remote_host net r.remote_addr;
    decision = "";
    allow = admission_allow_snapshot agent.config.allow;
    credentials = [];
  }

  abbrev conclude : Bool → String → State → State
  conclude authenticated reason s =
      in_admission
        (λ a. record a {
          authenticated = authenticated;
          reason = annotate_reason reason a.proxy_note;
        })
        s

  unfoldable pub check_credentials : Visit → State
  check_credentials v =
      let found = collect_credentials agent.config.allow v.request in
      let s = in_admission (λ a. record a { credentials = found }) v.state in
      if not (is_empty found)
      then conclude true "authentication requirements satisfied" s
      else if agent.config.required
      then render_admission_failure engine agent (conclude false "no allowed credentials present" s)
      else conclude true "optional authentication not provided" s

  unfoldable pub admit : Bool × Visit → AgentResult × Visit
  unfolding check_credentials finish
  admit (true, v) =
      let done = finish "" (check_credentials v) in (done.0, record v { state = done.1 })
  admit (false, v) = let done = finish "fail" v.state in (done.0, record v { state = done.1 })

  abbrev pub begun : ℕ → Visit → Visit
  begun now v = record v { state = in_admission (begin_admission now v.request) v.state }

  -- Execute
  unfoldable pub execute_admission : ℕ → Visit → AgentResult × Visit
  unfolding admit
  execute_admission now v = admit (check_proxies net agent (begun now v))
