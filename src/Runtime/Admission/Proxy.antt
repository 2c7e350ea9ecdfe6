-- ===== src/Runtime/Admission/Proxy.antt =====
-- Whether the addresses that proxies put in front of a request are believed. An agent changes the
-- request's headers and the state: both go through the functions together.
pub mod Trust
pub mod Untouched
use pass_ctrl.Prelude.{
  String, Bool, true, false, not, ◌&&◌, ◌||◌, Option, none, some, List, [], ◌∷◌, if◌then◌else◌,
  ◌==◌, any, all, Result, ok, err,
}
use pass_ctrl.Text.{◌+s◌, trim_space, to_lower, has_prefix}
use pass_ctrl.Assoc.{remove_where}
use pass_ctrl.Http.{header_get, header_set, header_del}
use pass_ctrl.Pipeline.State.{HttpRequest, State, AdmissionState}
use pass_ctrl.Runtime.Admission.{Network, AdmissionAgent}
use pass_ctrl.Runtime.Admission.Forwarded.{
  chain_missing, chain_invalid, metadata_mismatch, directive_empty, parse_forwarded_chain,
  parse_rfc7239_forwarded, join_forwarded_addrs, forwarded_chains_equal,
}

pub record Visit : Type 0 where
  pub request : HttpRequest
  pub state : State

abbrev pub in_admission : (AdmissionState → AdmissionState) → State → State
in_admission f s = record s { admission = f s.admission }

abbrev set_header : String → String → Visit → Visit
set_header name value v =
    let r = v.request in
    record v { request = record r { headers = header_set name value r.headers } }

abbrev del_header : String → Visit → Visit
del_header name v =
    let r = v.request in record v { request = record r { headers = header_del name r.headers } }

pub is_forwarded_header : String → Bool
is_forwarded_header name = has_prefix (to_lower name) "x-forwarded-" || to_lower name == "forwarded"

-- stripForwardedHeaders
unfoldable pub strip_forwarded_headers : HttpRequest → HttpRequest
unfolding is_forwarded_header
strip_forwarded_headers r = record r { headers = remove_where is_forwarded_header r.headers }

-- remoteHost, parseRemoteIP
module _ {Addr Prefix : Type 0} (net : Network Addr Prefix) where
  unfoldable pub remote_host : String → String
  remote_host addr =
      if addr == "" then "" else elim (net.split_host_port addr) [ none ↦ addr | some host ↦ host ]

  unfoldable pub parse_remote_ip : String → Option Addr
  unfolding remote_host
  parse_remote_ip addr =
      let host = remote_host addr in if host == "" then none else net.parse_addr host

  keep_forwarded : Visit → Result (List Addr × String) → Result (List Addr) × Visit
  keep_forwarded v (err e) =
      (err (if e == chain_missing || e == directive_empty then e else chain_invalid), v)
  keep_forwarded v (ok ([], text)) = (err chain_missing, v)
  keep_forwarded v (ok (addr ∷ addrs, text)) = (
    ok (addr ∷ addrs),
    set_header "Forwarded" text
        (record v { state = in_admission (λ a. record a { forwarded = text }) v.state }),
  )

  take_forwarded : Visit → Result (List Addr) × Visit
  unfolding keep_forwarded
  take_forwarded v =
      let given = v.state.admission.forwarded in
      if given == ""
      then (ok [], del_header "Forwarded" v)
      else keep_forwarded v (parse_rfc7239_forwarded net given)

  -- The chain of X-Forwarded-For beside that of Forwarded, if there is one.
  merge_chains : List Addr → List Addr → Result (List Addr)
  merge_chains [] chain = ok chain
  merge_chains (addr ∷ addrs) chain =
      if forwarded_chains_equal net (addr ∷ addrs) chain
      then ok (addr ∷ addrs)
      else err metadata_mismatch

  keep_forwarded_for : List Addr → Visit → Result (List Addr) → Result (List Addr) × Visit
  unfolding merge_chains
  keep_forwarded_for canonical v (err e) = (err chain_invalid, v)
  keep_forwarded_for canonical v (ok []) = (err chain_missing, v)
  keep_forwarded_for canonical v (ok (addr ∷ addrs)) =
      let text = join_forwarded_addrs net (addr ∷ addrs) in
      (
        merge_chains canonical (addr ∷ addrs),
        set_header "X-Forwarded-For" text
            (record v { state = in_admission (λ a. record a { forwarded_for = text }) v.state }),
      )

  abbrev nonempty : List Addr → Result (List Addr)
  nonempty [] = err chain_missing
  nonempty (addr ∷ addrs) = ok (addr ∷ addrs)

  take_forwarded_for : Result (List Addr) × Visit → Result (List Addr) × Visit
  unfolding keep_forwarded_for
  take_forwarded_for (err e, v) = (err e, v)
  take_forwarded_for (ok canonical, v) =
      let given = v.state.admission.forwarded_for in
      if given == ""
      then (nonempty canonical, del_header "X-Forwarded-For" v)
      else keep_forwarded_for canonical v (parse_forwarded_chain net given)

  -- prepareForwardedMetadata
  unfoldable pub prepare_forwarded_metadata : Visit → Result (List Addr) × Visit
  unfolding take_forwarded take_forwarded_for
  prepare_forwarded_metadata v = take_forwarded_for (take_forwarded v)

  module _ (agent : AdmissionAgent Prefix) where
    -- isTrusted
    unfoldable pub is_trusted : Addr → Bool
    is_trusted addr = any (λ network. net.covers network addr) agent.trusted_networks

    -- forwardedChainTrusted
    unfoldable pub forwarded_chain_trusted : List Addr → Bool
    unfolding is_trusted
    forwarded_chain_trusted [] = true
    forwarded_chain_trusted (client ∷ hops) = all is_trusted hops

    -- handleUntrustedProxy
    unfoldable pub handle_untrusted_proxy : String → String → Visit → Bool × Visit
    unfolding strip_forwarded_headers
    handle_untrusted_proxy reason note v =
        if agent.development_mode
        then (
          true,
          record {
            request = strip_forwarded_headers v.request;
            state =
                in_admission
                  (λ a. record a {
                    proxy_stripped = true;
                    proxy_note = note;
                    forwarded_for = "";
                    forwarded = "";
                  })
                  v.state;
          },
        )
        else (
          false,
          record v {
            state =
                in_admission
                  (λ a. record a {
                    authenticated = false;
                    reason = reason;
                    proxy_stripped = false;
                    proxy_note = note;
                  })
                  v.state;
          },
        )

    trust_proxy : Addr → Visit → Visit
    trust_proxy client v = record v {
      state =
          in_admission (λ a. record a { trusted_proxy = true; client_ip = net.addr_text client })
            v.state;
    }

    believe : List Addr → Visit → Bool × Visit
    unfolding trust_proxy
    believe [] v = (true, v)
    believe (client ∷ hops) v = (true, trust_proxy client v)

    judge_chain : Addr → Result (List Addr) × Visit → Bool × Visit
    unfolding forwarded_chain_trusted is_trusted handle_untrusted_proxy believe
    judge_chain addr (err e, v) =
        handle_untrusted_proxy e "forwarded headers stripped due to invalid metadata" v
    judge_chain addr (ok chain, v) =
        if not (forwarded_chain_trusted chain)
        then handle_untrusted_proxy "forwarded chain includes untrusted proxy"
            "forwarded headers stripped due to untrusted proxy chain" v
        else if not (is_trusted addr)
        then handle_untrusted_proxy "untrusted proxy rejected"
            "forwarded headers stripped from untrusted proxy" v
        else believe chain v

    judge_remote : Option Addr → Visit → Bool × Visit
    unfolding judge_chain prepare_forwarded_metadata
    judge_remote none v = (
      false,
      record v {
        state =
            in_admission
              (λ a. record a { authenticated = false; reason = "invalid remote address" }) v.state;
      },
    )
    judge_remote (some addr) v = judge_chain addr (prepare_forwarded_metadata v)

    -- The checks of Execute on the proxies, and whether it goes on to the credentials.
    unfoldable pub check_proxies : Visit → Bool × Visit
    unfolding judge_remote
    check_proxies v =
        if v.state.admission.forwarded_for == "" && v.state.admission.forwarded == ""
        then (true, v)
        else judge_remote (parse_remote_ip v.request.remote_addr) v
