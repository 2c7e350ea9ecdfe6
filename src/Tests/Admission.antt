-- ===== src/Tests/Admission.antt =====
-- A gate behind a proxy at 10.0.0.1, with a network in which an address is its text and a prefix is the
-- beginning of one.
use pass_ctrl.Prelude.{
  String, ◌≡◌, ◌↔◌, ◌&&◌, refl, true, false, none, some, [], ◌∷◌, Any, ok, if◌then◌else◌,
}
use pass_ctrl.Text.{
  lower_char, upper_char, ◌+s◌, contains, has_prefix, cut, split, join, trim_space, to_lower,
  equal_fold,
}
use pass_ctrl.Http.{header_get, header_set, header_del, canonical_key}
use pass_ctrl.Text.Utf8.{base64}
use pass_ctrl.Assoc.{get, put, remove}
use pass_ctrl.Pipeline.State.{HttpRequest, new_state, first_values}
use pass_ctrl.Runtime.Engine.{TemplateEngine}
use pass_ctrl.Runtime.Admission.{Network, AdmissionConfig, AdmissionAgent}
use pass_ctrl.Runtime.Admission.Proxy.{
  Visit, check_proxies, prepare_forwarded_metadata, parse_remote_ip, remote_host,
}
use pass_ctrl.Runtime.Admission.Credentials.{
  basic_part, bearer_part, anonymous_part, named_credentials, authorization_of, parse_authorization,
  allows_authorization, collect_credentials, decode_basic_credential, named_credential,
}
use pass_ctrl.Runtime.Admission.Credentials.Basic.{decode_basic_credential-base64}
use pass_ctrl.Runtime.Admission.Credentials.Presented.{
  IsPresented, collect_credentials-IsPresented_iff,
}
use pass_ctrl.Runtime.Admission.Failure.{challenge_header, render_admission_failure}
use pass_ctrl.Runtime.Admission.Failure.Rendering.{
  IsAuthenticate, response_headers, refusal_status, render_admission_failure-response,
}
use pass_ctrl.Runtime.Admission.Execute.{
  begun, execute_admission, finish, check_credentials, admit, begin_admission, annotate_reason,
}
use pass_ctrl.Runtime.Admission.Forwarded.{
  parse_forwarded_chain, parse_rfc7239_forwarded, join_forwarded_addrs,
}
use pass_ctrl.Runtime.Admission.Execute.Verdict.{
  Decides, IsSource, IsVerified, execute_admission-Decides, execute_admission-IsSource,
  execute_admission-IsVerified, satisfied,
}

abbrev pub lan : Network String String
lan = record {
  parse_addr = λ text. if contains text "." then some text else none;
  parse_addr_port = λ text. none;
  split_host_port = λ text. some (cut text b':').before;
  parse_prefix = λ text. some text;
  covers = λ prefix addr. has_prefix addr prefix;
  addr_text = λ addr. addr;
  same_addr = λ a b. true;
}

abbrev pub engine : TemplateEngine
engine = λ template s. ok template.source

abbrev gate_config : AdmissionConfig
gate_config = record {
  required = true;
  allow = record {
    authorization = "Basic" ∷ " bearer " ∷ [];
    header = "X-Key" ∷ [];
    query = [];
    anonymous = false;
  };
  challenge = record { kind = "basic"; realm = "gate"; charset = "" };
  response = none;
}

abbrev pub gate : AdmissionAgent String
gate = record {
  trusted_networks = "10." ∷ [];
  development_mode = false;
  config = record gate_config {
    allow = record {
      authorization = "basic" ∷ "bearer" ∷ [];
      header = "X-Key" ∷ [];
      query = [];
      anonymous = false;
    };
  };
  compiled_body = none;
}

abbrev pub call : HttpRequest
call = record {
  method = "GET";
  path = "/auth";
  host = "gate";
  remote_addr = "10.0.0.1:99";
  headers = ("X-Forwarded-For", "1.2.3.4, 10.0.0.2" ∷ []) ∷ ("X-Key", "k" ∷ []) ∷ [];
  query = [];
}

abbrev pub visit : Visit
visit = record { request = call; state = new_state call "main" "key" "1" }

admitted : (execute_admission lan engine gate 5 visit).1.state.admission.authenticated ≡ true
unfolding execute_admission check_proxies prepare_forwarded_metadata parse_forwarded_chain
    parse_rfc7239_forwarded join_forwarded_addrs parse_remote_ip remote_host header_get header_set
    header_del canonical_key trim_space to_lower has_prefix contains split join cut get put remove
    collect_credentials basic_part bearer_part anonymous_part named_credentials authorization_of
    parse_authorization decode_basic_credential allows_authorization equal_fold new_state
    first_values finish check_credentials admit begin_admission annotate_reason lower_char
    upper_char
admitted = refl

-- The same call from a connection outside of the trusted networks.
abbrev pub stranger : Visit
stranger = record visit { request = record call { remote_addr = "8.8.8.8:1" } }

outside : (execute_admission lan engine gate 5 stranger).0.details ≡ "untrusted proxy rejected"
unfolding execute_admission check_proxies prepare_forwarded_metadata parse_forwarded_chain
    parse_rfc7239_forwarded join_forwarded_addrs parse_remote_ip remote_host header_get header_set
    header_del canonical_key trim_space to_lower has_prefix contains split join cut get put remove
    new_state first_values finish admit begin_admission lower_char upper_char
outside = refl

execute_admission-IsSource_example :
    IsSource lan gate
      (begun lan engine gate 5 visit)
      (execute_admission lan engine gate 5 visit).1.state.admission
execute_admission-IsSource_example = execute_admission-IsSource lan engine gate 5 visit

execute_admission-Decides_example :
    Decides lan engine gate (execute_admission lan engine gate 5 stranger) (
      (check_proxies lan gate (begun lan engine gate 5 stranger)).0
      && satisfied lan engine gate
          (check_proxies lan gate (begun lan engine gate 5 stranger)).1.request)
execute_admission-Decides_example = execute_admission-Decides lan engine gate 5 stranger

execute_admission-IsVerified_example : IsVerified lan engine gate (begun lan engine gate 5 visit)
execute_admission-IsVerified_example =
    execute_admission-IsVerified lan engine gate 5 visit refl admitted

render_admission_failure-response_example :
    ((render_admission_failure engine gate visit.state).admission ≡ visit.state.admission)
    × ((render_admission_failure engine gate visit.state).response.status
        ≡ refusal_status gate.config.response)
    × IsAuthenticate
        (response_headers gate.config.response)
        (challenge_header gate.config.challenge)
        (get "WWW-Authenticate" visit.state.response.headers)
        (get "WWW-Authenticate" (render_admission_failure engine gate visit.state).response.headers)
render_admission_failure-response_example =
    render_admission_failure-response engine gate visit.state

collect_credentials-IsPresented_iff_example :
    Any
      (λ x. x ≡ named_credential "header" "X-Key" "k")
      (collect_credentials gate.config.allow call)
    ↔ IsPresented gate.config.allow call (named_credential "header" "X-Key" "k")
collect_credentials-IsPresented_iff_example =
    collect_credentials-IsPresented_iff gate.config.allow call
      (named_credential "header" "X-Key" "k")

decode_basic_credential-base64_example :
    decode_basic_credential (base64 ("ann" +s ":" +s "a:b")) ≡ some ("ann", "a:b")
decode_basic_credential-base64_example =
    decode_basic_credential-base64 "ann" "a:b" (refl, (refl, (refl, tt)))
