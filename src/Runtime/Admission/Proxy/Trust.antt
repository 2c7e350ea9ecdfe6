-- ===== src/Runtime/Admission/Proxy/Trust.antt =====
-- What becomes of the addresses in front of a request.
use pass_ctrl.Prelude.{
  String, ◌≡◌, refl, ◌∙◌, Bool, true, false, ◌&&◌, some, List, [], ◌∷◌, ◌==◌, any, all, Any, All,
  Result, ok, err, inl, inr, Bool-cases, Option-cases, arith, eq_iff,
}
use pass_ctrl.Assoc.{Assoc, remove_where}
use pass_ctrl.Runtime.Admission.{Network, AdmissionAgent}
use pass_ctrl.Runtime.Admission.Forwarded.{
  forwarded_chains_equal, parse_forwarded_chain, parse_rfc7239_forwarded,
}
use pass_ctrl.Runtime.Admission.Proxy.{
  Visit, parse_remote_ip, prepare_forwarded_metadata, is_trusted, forwarded_chain_trusted,
  handle_untrusted_proxy, check_proxies, strip_forwarded_headers, take_forwarded,
  take_forwarded_for, keep_forwarded, keep_forwarded_for, merge_chains, trust_proxy, believe,
  judge_chain, nonempty, is_forwarded_header, judge_remote,
}

pub any-Any : {A : Type 0} (p : A → Bool) (xs : List A) → any p xs ≡ true → Any (λ x. p x ≡ true) xs
any-Any p [] h = ground arith
any-Any p (x ∷ xs) h = elim (Bool-cases (p x)) [
  | inl e ↦ inl e
  | inr e ↦ inr (any-Any p xs (ground arith))
]

pub remove_where-refused :
    {V : Type 0} (p : String → Bool) (m : Assoc V)
    → All (λ entry. p entry.0 ≡ false) (remove_where p m)
unfolding remove_where
remove_where-refused p [] = tt
remove_where-refused p ((k, x) ∷ m) = elim (Bool-cases (p k)) [
  | inl e ↦ rw e (remove_where-refused p m)
  | inr e ↦ rw e (e, remove_where-refused p m)
]

pub all-All :
    {A : Type 0} {P : A → Type 0} (p : A → Bool)
    → ((x : A) → p x ≡ true → P x)
    → (xs : List A) → all p xs ≡ true
    → All P xs
all-All p f [] h = tt
all-All p f (x ∷ xs) h = (f x (ground arith), all-All p f xs (ground arith))

-- No element of the value is missing: an error, or a chain with a client.
abbrev HasClient : {A : Type 0} → Result (List A) → Type 0
HasClient (err e) = Unit
HasClient (ok []) = ⊥
HasClient (ok (x ∷ xs)) = Unit

-- The client's address, and whether it is a proxy's word, are as they were.
abbrev pub IsUntouched : Visit → Visit → Type 0
IsUntouched v w =
    (w.state.admission.trusted_proxy ≡ v.state.admission.trusted_proxy)
    × (w.state.admission.client_ip ≡ v.state.admission.client_ip)

module _ {Addr Prefix : Type 0} (net : Network Addr Prefix) where
  merge_chains-HasClient :
      (canonical : List Addr) (addr : Addr) (addrs : List Addr)
      → HasClient (merge_chains net canonical (addr ∷ addrs))
  unfolding merge_chains
  merge_chains-HasClient [] addr addrs = tt
  merge_chains-HasClient (x ∷ xs) addr addrs =
      elim (Bool-cases (forwarded_chains_equal net (x ∷ xs) (addr ∷ addrs))) [
        | inl e ↦ rw e tt
        | inr e ↦ rw e tt
      ]

  keep_forwarded_for-HasClient :
      (canonical : List Addr) (v : Visit) (r : Result (List Addr))
      → HasClient (keep_forwarded_for net canonical v r).0
  unfolding keep_forwarded_for
  keep_forwarded_for-HasClient canonical v (err e) = tt
  keep_forwarded_for-HasClient canonical v (ok []) = tt
  keep_forwarded_for-HasClient canonical v (ok (addr ∷ addrs)) =
      merge_chains-HasClient canonical addr addrs

  nonempty-HasClient : (chain : List Addr) → HasClient (nonempty net chain)
  nonempty-HasClient [] = tt
  nonempty-HasClient (x ∷ xs) = tt

  take_forwarded_for-HasClient :
      (r : Result (List Addr)) (v : Visit) → HasClient (take_forwarded_for net (r, v)).0
  unfolding take_forwarded_for
  take_forwarded_for-HasClient (err e) v = tt
  take_forwarded_for-HasClient (ok canonical) v =
      elim (Bool-cases (v.state.admission.forwarded_for == "")) [
        | inl e ↦ rw e (nonempty-HasClient canonical)
        | inr e ↦ rw e (
            keep_forwarded_for-HasClient canonical v
              (parse_forwarded_chain net v.state.admission.forwarded_for))
      ]

  prepare_forwarded_metadata-HasClient :
      (v : Visit) → HasClient (prepare_forwarded_metadata net v).0
  unfolding prepare_forwarded_metadata
  prepare_forwarded_metadata-HasClient v =
      let first = take_forwarded net v in take_forwarded_for-HasClient first.0 first.1

  keep_forwarded-IsUntouched :
      (v : Visit) (r : Result (List Addr × String)) → IsUntouched v (keep_forwarded net v r).1
  unfolding keep_forwarded
  keep_forwarded-IsUntouched v (err e) = (refl, refl)
  keep_forwarded-IsUntouched v (ok ([], text)) = (refl, refl)
  keep_forwarded-IsUntouched v (ok (addr ∷ addrs, text)) = (refl, refl)

  take_forwarded-IsUntouched : (v : Visit) → IsUntouched v (take_forwarded net v).1
  unfolding take_forwarded
  take_forwarded-IsUntouched v = elim (Bool-cases (v.state.admission.forwarded == "")) [
    | inl e ↦ rw e (refl, refl)
    | inr e ↦
        rw e
          (keep_forwarded-IsUntouched v (parse_rfc7239_forwarded net v.state.admission.forwarded))
  ]

  keep_forwarded_for-IsUntouched :
      (canonical : List Addr) (v : Visit) (r : Result (List Addr))
      → IsUntouched v (keep_forwarded_for net canonical v r).1
  unfolding keep_forwarded_for
  keep_forwarded_for-IsUntouched canonical v (err e) = (refl, refl)
  keep_forwarded_for-IsUntouched canonical v (ok []) = (refl, refl)
  keep_forwarded_for-IsUntouched canonical v (ok (addr ∷ addrs)) = (refl, refl)

  take_forwarded_for-IsUntouched :
      (r : Result (List Addr)) (v : Visit) → IsUntouched v (take_forwarded_for net (r, v)).1
  unfolding take_forwarded_for
  take_forwarded_for-IsUntouched (err e) v = (refl, refl)
  take_forwarded_for-IsUntouched (ok canonical) v =
      elim (Bool-cases (v.state.admission.forwarded_for == "")) [
        | inl e ↦ rw e (refl, refl)
        | inr e ↦ rw e (
            keep_forwarded_for-IsUntouched canonical v
              (parse_forwarded_chain net v.state.admission.forwarded_for))
      ]

  prepare_forwarded_metadata-IsUntouched :
      (v : Visit) → IsUntouched v (prepare_forwarded_metadata net v).1
  unfolding prepare_forwarded_metadata
  prepare_forwarded_metadata-IsUntouched v =
      let first = take_forwarded net v in
      let h₁ = take_forwarded-IsUntouched v in
      let h₂ = take_forwarded_for-IsUntouched first.0 first.1 in (h₂.0 ∙ h₁.0, h₂.1 ∙ h₁.1)

  module _ (agent : AdmissionAgent Prefix) where
    -- An address in one of the trusted networks.
    abbrev pub IsTrusted : Addr → Type 0
    IsTrusted addr = Any (λ network. net.covers network addr ≡ true) agent.trusted_networks

    abbrev pub HasNoForwarded : Visit → Type 0
    HasNoForwarded v = (v.state.admission.forwarded_for ≡ "") × (v.state.admission.forwarded ≡ "")

    -- What the checks on the proxies may come to.
    pub data IsChecked (v : Visit) : Bool × Visit → Type 0 where
      direct : HasNoForwarded v → IsChecked v (true, v)
      trusted :
          {remote client : Addr} {hops : List Addr} {reached : Visit}
          → parse_remote_ip net v.request.remote_addr ≡ some remote
          → (prepare_forwarded_metadata net v).0 ≡ ok (client ∷ hops)
          → IsTrusted remote
          → All IsTrusted hops
          → reached.state.admission.trusted_proxy ≡ true
          → reached.state.admission.client_ip ≡ net.addr_text client
          → IsChecked v (true, reached)
      stripped :
          {reached : Visit}
          → agent.development_mode ≡ true
          → HasNoForwarded reached
          → IsUntouched v reached
          → All (λ entry. is_forwarded_header entry.0 ≡ false) reached.request.headers
          → IsChecked v (true, reached)
      refused :
          {reached : Visit}
          → reached.state.admission.authenticated ≡ false
          → IsUntouched v reached
          → IsChecked v (false, reached)

    not_trusted-IsChecked :
        (v w : Visit) (reason note : String)
        → IsUntouched v w
        → IsChecked v (handle_untrusted_proxy net agent reason note w)
    unfolding handle_untrusted_proxy strip_forwarded_headers
    not_trusted-IsChecked v w reason note h = elim (Bool-cases agent.development_mode) [
      | inl e ↦
          simp e
            (stripped e (refl, refl) h (remove_where-refused is_forwarded_header w.request.headers))
      | inr e ↦ simp e (refused refl h)
    ]

    judge_chain-IsChecked :
        (v : Visit) (remote : Addr) (r : Result (List Addr)) (w : Visit)
        → parse_remote_ip net v.request.remote_addr ≡ some remote
        → (prepare_forwarded_metadata net v).0 ≡ r
        → HasClient r
        → IsUntouched v w
        → IsChecked v (judge_chain net agent remote (r, w))
    unfolding judge_chain believe forwarded_chain_trusted is_trusted trust_proxy
    judge_chain-IsChecked v remote (err e) w hr hp hc hu =
        not_trusted-IsChecked v w e "forwarded headers stripped due to invalid metadata" hu
    judge_chain-IsChecked v remote (ok []) w hr hp hc hu = elim hc [ ]
    judge_chain-IsChecked v remote (ok (client ∷ hops)) w hr hp hc hu =
        elim (Bool-cases (all (is_trusted net agent) hops)) [
          | inr e ↦ rw e (
              not_trusted-IsChecked v w "forwarded chain includes untrusted proxy"
                "forwarded headers stripped due to untrusted proxy chain" hu)
          | inl e ↦ elim (Bool-cases (is_trusted net agent remote)) [
            | inr t ↦ rw e (
                rw t (
                  not_trusted-IsChecked v w "untrusted proxy rejected"
                    "forwarded headers stripped from untrusted proxy" hu))
            | inl t ↦ rw e (
                rw t (
                  trusted hr hp
                    (any-Any (λ network. net.covers network remote) agent.trusted_networks t)
                    (all-All (is_trusted net agent)
                      (λ hop. any-Any (λ network. net.covers network hop) agent.trusted_networks)
                      hops e)
                    refl refl))
          ]
        ]

    -- Whatever the request, the checks on its proxies
    pub check_proxies-IsChecked : (v : Visit) → IsChecked v (check_proxies net agent v)
    unfolding check_proxies judge_remote
    check_proxies-IsChecked v = elim (Bool-cases given_none) [
      | inl e ↦ rw e (direct (ground (arith, eq_iff ff "", eq_iff f "")))
      | inr e ↦ elim (Option-cases (parse_remote_ip net v.request.remote_addr)) [
        | inl none_found ↦ rw e (rw none_found (refused refl (refl, refl)))
        | inr found ↦ rw e (
            rw found.1 (
              judge_chain-IsChecked v found.0 (prepare_forwarded_metadata net v).0
                (prepare_forwarded_metadata net v).1 found.1 refl
                (prepare_forwarded_metadata-HasClient v)
                (prepare_forwarded_metadata-IsUntouched v)))
      ]
    ]
      where
        ff : String
        ff = v.state.admission.forwarded_for

        f : String
        f = v.state.admission.forwarded

        given_none : Bool
        given_none = ff == "" && f == ""
