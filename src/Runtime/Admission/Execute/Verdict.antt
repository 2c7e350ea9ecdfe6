-- ===== src/Runtime/Admission/Execute/Verdict.antt =====
-- Whom an admission believes, and when it lets a request in.
use pass_ctrl.Prelude.{
  ℕ, String, ◌≡◌, ◌⊎◌, refl, ◌∙◌, Bool, true, false, not, some, List, ◌∷◌, ◌&&◌, ◌||◌, All, ok, inl,
  inr, Bool-cases, arith, is_empty, if◌then◌else◌,
}
use pass_ctrl.Pipeline.State.{State, AdmissionState, HttpRequest, AgentResult}
use pass_ctrl.Runtime.Engine.{TemplateEngine}
use pass_ctrl.Runtime.Admission.{Network, AdmissionAgent}
use pass_ctrl.Runtime.Admission.Proxy.{
  Visit, remote_host, parse_remote_ip, prepare_forwarded_metadata, check_proxies,
}
use pass_ctrl.Runtime.Admission.Proxy.Trust.{
  IsTrusted, HasNoForwarded, IsChecked, check_proxies-IsChecked, IsUntouched, direct, trusted,
  stripped, refused,
}
use pass_ctrl.Runtime.Admission.Credentials.{collect_credentials}
use pass_ctrl.Runtime.Admission.Failure.Rendering.{render_admission_failure-admission}
use pass_ctrl.Runtime.Admission.Execute.{
  begun, begin_admission, check_credentials, admit, execute_admission, finish,
}

-- Where the client's address of an admission comes from: from the connection, or from a trusted proxy.
-- Then the connection comes from a trusted network, and so do all hops of the chain but the client.
pub data IsSource {Addr Prefix : Type 0} (net : Network Addr Prefix) (agent : AdmissionAgent Prefix)
    (start : Visit) : AdmissionState → Type 0 where
  connection :
      {a : AdmissionState}
      → a.trusted_proxy ≡ false
      → a.client_ip ≡ remote_host net start.request.remote_addr
      → IsSource net agent start a
  proxy :
      {a : AdmissionState} {remote client : Addr} {hops : List Addr}
      → parse_remote_ip net start.request.remote_addr ≡ some remote
      → (prepare_forwarded_metadata net start).0 ≡ ok (client ∷ hops)
      → IsTrusted net agent remote
      → All (IsTrusted net agent) hops
      → a.trusted_proxy ≡ true
      → a.client_ip ≡ net.addr_text client
      → IsSource net agent start a

module _ {Addr Prefix : Type 0} (net : Network Addr Prefix) (engine : TemplateEngine)
    (agent : AdmissionAgent Prefix) where
  -- What the credentials and the end of the admission do not touch.
  check_credentials-IsUntouched :
      (v : Visit)
      → ((check_credentials net engine agent v).admission.trusted_proxy
          ≡ v.state.admission.trusted_proxy)
        × ((check_credentials net engine agent v).admission.client_ip ≡ v.state.admission.client_ip)
  unfolding check_credentials
  check_credentials-IsUntouched v =
      elim (Bool-cases (is_empty (collect_credentials agent.config.allow v.request))) [
        | inr e ↦ rw e (refl, refl)
        | inl e ↦ elim (Bool-cases agent.config.required) [
          | inr q ↦ simp (e, q) (refl, refl)
          | inl q ↦ simp (e, q, render_admission_failure-admission) (refl, refl)
        ]
      ]

  admit-IsUntouched :
      (goes_on : Bool) (v : Visit) → IsUntouched v (admit net engine agent (goes_on, v)).1
  unfolding admit finish
  admit-IsUntouched true v = check_credentials-IsUntouched v
  admit-IsUntouched false v = (refl, refl)

  keeps_IsSource :
      (start v w : Visit)
      → IsUntouched v w
      → IsSource net agent start v.state.admission
      → IsSource net agent start w.state.admission
  keeps_IsSource start v w h (connection p q) = connection (h.0 ∙ p) (h.1 ∙ q)
  keeps_IsSource start v w h (proxy r c t hs p q) = proxy r c t hs (h.0 ∙ p) (h.1 ∙ q)

  checked-IsSource :
      (start : Visit) (answer : Bool × Visit)
      → start.state.admission.trusted_proxy ≡ false
      → start.state.admission.client_ip ≡ remote_host net start.request.remote_addr
      → IsChecked net agent start answer
      → IsSource net agent start answer.1.state.admission
  checked-IsSource start answer p q (direct h) = connection p q
  checked-IsSource start answer p q (trusted r c t hs t' c') = proxy r c t hs t' c'
  checked-IsSource start answer p q (stripped d n u hs) = connection (u.0 ∙ p) (u.1 ∙ q)
  checked-IsSource start answer p q (refused a u) = connection (u.0 ∙ p) (u.1 ∙ q)

  -- Whatever the request says, an admission takes the client's address from the connection, or from the
  -- forwarded chain. It takes the latter only where the connection's address and every hop of the chain
  -- but the client are in trusted networks, and then says so.
  pub execute_admission-IsSource :
      (now : ℕ) (v : Visit)
      → IsSource net agent
          (begun net engine agent now v)
          (execute_admission net engine agent now v).1.state.admission
  unfolding execute_admission begin_admission
  execute_admission-IsSource now v =
      let start = begun net engine agent now v in
      let answer = check_proxies net agent start in
      keeps_IsSource start answer.1 (admit net engine agent answer).1
        (admit-IsUntouched answer.0 answer.1)
        (checked-IsSource start answer refl refl (check_proxies-IsChecked net agent start))

  -- The text of a decision.
  abbrev pub decision_text : Bool → String
  decision_text authenticated = if authenticated then "pass" else "fail"

  -- The result and the state of an admission agree that it has this decision.
  abbrev pub Decides : AgentResult × Visit → Bool → Type 0
  Decides answer authenticated =
      (answer.1.state.admission.authenticated ≡ authenticated)
      × (answer.0.status ≡ decision_text authenticated)
      × (answer.1.state.admission.decision ≡ decision_text authenticated)

  -- Whether the credentials of the request are enough.
  abbrev pub satisfied : HttpRequest → Bool
  satisfied r =
      not (is_empty (collect_credentials agent.config.allow r)) || not agent.config.required

  check_credentials-authenticated :
      (v : Visit)
      → (check_credentials net engine agent v).admission.authenticated ≡ satisfied v.request
  unfolding check_credentials
  check_credentials-authenticated v =
      elim (Bool-cases (is_empty (collect_credentials agent.config.allow v.request))) [
        | inr e ↦ rw e refl
        | inl e ↦ elim (Bool-cases agent.config.required) [
          | inr q ↦ simp (e, q) refl
          | inl q ↦ simp (e, q, render_admission_failure-admission) refl
        ]
      ]

  finish-Decides :
      (r : HttpRequest) (s : State) (status : String) (authenticated : Bool)
      → s.admission.authenticated ≡ authenticated
      → (status ≡ "") ⊎ ((status ≡ "fail") × (authenticated ≡ false))
      → Decides
          ((finish status s).0, record { request = r; state = (finish status s).1 })
          authenticated
  unfolding finish
  finish-Decides r s status authenticated h (inl e) = simp (e, h) (refl, refl, refl)
  finish-Decides r s status authenticated h (inr e) = simp (e.0, h, e.1) (refl, refl, refl)

  admit-Decides :
      (start : Visit) (answer : Bool × Visit)
      → IsChecked net agent start answer
      → Decides (admit net engine agent answer) (answer.0 && satisfied answer.1.request)
  unfolding admit
  admit-Decides start (true, v) h =
      finish-Decides v.request (check_credentials net engine agent v) "" (satisfied v.request)
        (check_credentials-authenticated v) (inl refl)
  admit-Decides start (false, v) (refused a u) =
      finish-Decides v.request v.state "fail" false a (inr (refl, refl))

  -- An admission passes exactly when its checks on the proxies go on and the request has an allowed
  -- credential, or needs none; else it fails. Its status, its decision and whether the request is
  -- authenticated all say so.
  pub execute_admission-Decides :
      (now : ℕ) (v : Visit)
      → Decides (execute_admission net engine agent now v) (
          (check_proxies net agent (begun net engine agent now v)).0
          && satisfied (check_proxies net agent (begun net engine agent now v)).1.request)
  unfolding execute_admission
  execute_admission-Decides now v =
      let start = begun net engine agent now v in
      admit-Decides start (check_proxies net agent start) (check_proxies-IsChecked net agent start)

  -- A request without forwarded addresses, or with a chain of trusted hops from a trusted connection.
  abbrev pub IsVerified : Visit → Type 0
  IsVerified start =
      HasNoForwarded net agent start
      ⊎ ((remote client : Addr) × (hops : List Addr) × (parse_remote_ip net
              start.request.remote_addr
            ≡ some remote)
          × ((prepare_forwarded_metadata net start).0 ≡ ok (client ∷ hops))
          × IsTrusted net agent remote
          × All (IsTrusted net agent) hops)

  checked-IsVerified :
      (start : Visit) (answer : Bool × Visit)
      → agent.development_mode ≡ false
      → answer.0 ≡ true
      → IsChecked net agent start answer
      → IsVerified start
  checked-IsVerified start answer production goes_on (direct h) = inl h
  checked-IsVerified start answer production goes_on
        (trusted {remote} {client} {hops} r c t hs p q) =
      inr (remote, client, hops, r, c, t, hs)
  checked-IsVerified start answer production goes_on (stripped d n u hs) = cc
  checked-IsVerified start answer production goes_on (refused a u) = cc

  -- Outside development mode, a request that is authenticated has blank X-Forwarded-For and Forwarded
  -- headers, or its connection and every hop of its forwarded chain but the client are in trusted
  -- networks.
  pub execute_admission-IsVerified :
      (now : ℕ) (v : Visit)
      → agent.development_mode ≡ false
      → (execute_admission net engine agent now v).1.state.admission.authenticated ≡ true
      → IsVerified (begun net engine agent now v)
  execute_admission-IsVerified now v production admitted =
      let start = begun net engine agent now v in
      let answer = check_proxies net agent start in
      let decided = (execute_admission-Decides now v).0 in
      checked-IsVerified start answer production (ground (arith))
        (check_proxies-IsChecked net agent start)
