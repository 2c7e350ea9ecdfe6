-- ===== src/Runtime/Admission/Proxy/Untouched.antt =====
-- The checks on the proxies change nothing in the state but the admission.
use pass_ctrl.Prelude.{
  String, ◌≡◌, refl, ◌∙◌, Option, none, some, List, [], ◌∷◌, ◌==◌, Result, ok, err, inl, inr,
  Bool-cases, ◌&&◌,
}
use pass_ctrl.Pipeline.State.{State}
use pass_ctrl.Runtime.Admission.{Network, AdmissionAgent}
use pass_ctrl.Runtime.Admission.Forwarded.{parse_forwarded_chain, parse_rfc7239_forwarded}
use pass_ctrl.Runtime.Admission.Proxy.{
  Visit, parse_remote_ip, prepare_forwarded_metadata, is_trusted, forwarded_chain_trusted,
  handle_untrusted_proxy, check_proxies, take_forwarded, take_forwarded_for, keep_forwarded,
  keep_forwarded_for, trust_proxy, believe, judge_chain, judge_remote,
}

-- The response and the rules' state are the same.
abbrev pub IsAside : State → State → Type 0
IsAside s t = (t.response ≡ s.response) × (t.rule ≡ s.rule)

abbrev then_aside : (s t u : State) → IsAside s t → IsAside t u → IsAside s u
then_aside s t u h k = (k.0 ∙ h.0, k.1 ∙ h.1)

module _ {Addr Prefix : Type 0} (net : Network Addr Prefix) where
  keep_forwarded-IsAside :
      (v : Visit) (r : Result (List Addr × String))
      → IsAside v.state (keep_forwarded net v r).1.state
  unfolding keep_forwarded
  keep_forwarded-IsAside v (err e) = (refl, refl)
  keep_forwarded-IsAside v (ok ([], text)) = (refl, refl)
  keep_forwarded-IsAside v (ok (addr ∷ addrs, text)) = (refl, refl)

  take_forwarded-IsAside : (v : Visit) → IsAside v.state (take_forwarded net v).1.state
  unfolding take_forwarded
  take_forwarded-IsAside v = elim (Bool-cases (v.state.admission.forwarded == "")) [
    | inl e ↦ rw e (refl, refl)
    | inr e ↦
        rw e (keep_forwarded-IsAside v (parse_rfc7239_forwarded net v.state.admission.forwarded))
  ]

  keep_forwarded_for-IsAside :
      (canonical : List Addr) (v : Visit) (r : Result (List Addr))
      → IsAside v.state (keep_forwarded_for net canonical v r).1.state
  unfolding keep_forwarded_for
  keep_forwarded_for-IsAside canonical v (err e) = (refl, refl)
  keep_forwarded_for-IsAside canonical v (ok []) = (refl, refl)
  keep_forwarded_for-IsAside canonical v (ok (addr ∷ addrs)) = (refl, refl)

  take_forwarded_for-IsAside :
      (r : Result (List Addr)) (v : Visit) → IsAside v.state (take_forwarded_for net (r, v)).1.state
  unfolding take_forwarded_for
  take_forwarded_for-IsAside (err e) v = (refl, refl)
  take_forwarded_for-IsAside (ok canonical) v =
      elim (Bool-cases (v.state.admission.forwarded_for == "")) [
        | inl e ↦ rw e (refl, refl)
        | inr e ↦ rw e (
            keep_forwarded_for-IsAside canonical v
              (parse_forwarded_chain net v.state.admission.forwarded_for))
      ]

  module _ (agent : AdmissionAgent Prefix) where
    handle_untrusted_proxy-IsAside :
        (reason note : String) (v : Visit)
        → IsAside v.state (handle_untrusted_proxy net agent reason note v).1.state
    unfolding handle_untrusted_proxy
    handle_untrusted_proxy-IsAside reason note v = elim (Bool-cases agent.development_mode) [
      | inl e ↦ simp e (refl, refl)
      | inr e ↦ simp e (refl, refl)
    ]

    believe-IsAside :
        (chain : List Addr) (v : Visit) → IsAside v.state (believe net agent chain v).1.state
    unfolding believe trust_proxy
    believe-IsAside [] v = (refl, refl)
    believe-IsAside (client ∷ hops) v = (refl, refl)

    judge_chain-IsAside :
        (addr : Addr) (r : Result (List Addr)) (v : Visit)
        → IsAside v.state (judge_chain net agent addr (r, v)).1.state
    unfolding judge_chain
    judge_chain-IsAside addr (err e) v =
        handle_untrusted_proxy-IsAside e "forwarded headers stripped due to invalid metadata" v
    judge_chain-IsAside addr (ok chain) v =
        elim (Bool-cases (forwarded_chain_trusted net agent chain)) [
          | inr e ↦ rw e (
              handle_untrusted_proxy-IsAside "forwarded chain includes untrusted proxy"
                "forwarded headers stripped due to untrusted proxy chain" v)
          | inl e ↦ elim (Bool-cases (is_trusted net agent addr)) [
            | inr t ↦
                rw (e, t)
                  (handle_untrusted_proxy-IsAside "untrusted proxy rejected"
                    "forwarded headers stripped from untrusted proxy" v)
            | inl t ↦ rw (e, t) (believe-IsAside chain v)
          ]
        ]

    judge_remote-IsAside :
        (remote : Option Addr) (v : Visit)
        → IsAside v.state (judge_remote net agent remote v).1.state
    unfolding judge_remote prepare_forwarded_metadata
    judge_remote-IsAside none v = (refl, refl)
    judge_remote-IsAside (some addr) v =
        let first = take_forwarded net v in
        let next = take_forwarded_for net first in
        let h₁ = take_forwarded-IsAside v in
        let h₂ = take_forwarded_for-IsAside first.0 first.1 in
        let h₃ = judge_chain-IsAside addr next.0 next.1 in
        then_aside v.state next.1.state (judge_chain net agent addr next).1.state
          (then_aside v.state first.1.state next.1.state h₁ h₂) h₃

    pub check_proxies-IsAside : (v : Visit) → IsAside v.state (check_proxies net agent v).1.state
    unfolding check_proxies
    check_proxies-IsAside v =
        elim (Bool-cases
          (v.state.admission.forwarded_for == "" && v.state.admission.forwarded == "")) [
            | inl e ↦ rw e (refl, refl)
            | inr e ↦ rw e (judge_remote-IsAside (parse_remote_ip net v.request.remote_addr) v)
          ]
