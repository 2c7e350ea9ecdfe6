-- ===== src/Runtime/Admission/Failure.antt =====
-- What the client is told when a required credential is missing.
pub mod Rendering
use Prim.Native.Char.{code}
use Prim.Native.String
use pass_ctrl.Prelude.{
  String, Bool, true, false, ◌&&◌, ◌||◌, Option, none, some, if◌then◌else◌, ◌==◌, ℤ, pos, ltb_ℤ,
  Result, ok, err, nat_eq,
}
use pass_ctrl.Text.{◌+s◌, trim_space}
use pass_ctrl.Assoc.{put, put_all}
use pass_ctrl.Rulechain.Types.{Template}
use pass_ctrl.Pipeline.State.{State}
use pass_ctrl.Runtime.Engine.{TemplateEngine}
use pass_ctrl.Runtime.Admission.{ChallengeConfig, AdmissionResponseConfig, AdmissionAgent}

-- escapeChallengeValue
unfoldable pub escape_challenge_value : String → String
escape_challenge_value String.[] = ""
escape_challenge_value (String.◌∷◌ c s) =
    let rest = escape_challenge_value s in
    if nat_eq (code c) b'\\' || nat_eq (code c) b'"'
    then "\\" +s String.◌∷◌ c rest
    else String.◌∷◌ c rest

-- challengeHeader: empty where there is no challenge
unfoldable pub challenge_header : ChallengeConfig → String
challenge_header challenge =
    let realm = escape_challenge_value challenge.realm in
    let charset = escape_challenge_value challenge.charset in
    if challenge.kind == "" || challenge.realm == ""
    then ""
    else if challenge.kind == "basic"
    then if challenge.charset == ""
      then "Basic realm=\"" +s realm +s "\""
      else "Basic realm=\"" +s realm +s "\", charset=\"" +s charset +s "\""
    else if challenge.kind == "bearer"
    then "Bearer realm=\"" +s realm +s "\""
    else ""

-- The body of a refusal: the configured one, where it renders to a text that is not blank.
render_body : TemplateEngine → Option Template → State → State
render_body engine none s = s
render_body engine (some body) s =
    let response = s.response in
    elim (engine body s) [
      | err e ↦ s
      | ok text ↦
          if trim_space text == ""
          then s
          else record s { response = record response { message = text } }
    ]

override_response :
    TemplateEngine → Option Template → Option AdmissionResponseConfig → State → State
unfolding render_body
override_response engine body none s = s
override_response engine body (some config) s =
    let response = s.response in
    render_body engine body (record s {
      response = record response {
        status = if ltb_ℤ (pos 0) config.status then config.status else response.status;
        headers = put_all config.headers response.headers;
      };
    })

-- renderAdmissionFailure
unfoldable pub render_admission_failure :
    {Prefix : Type 0} → TemplateEngine → AdmissionAgent Prefix → State → State
unfolding override_response
render_admission_failure engine agent s =
    let response = s.response in
    let challenge = challenge_header agent.config.challenge in
    override_response engine agent.compiled_body agent.config.response (record s {
      response = record response {
        status = pos 401;
        message = "authentication required";
        headers =
            if challenge == ""
            then response.headers
            else put "WWW-Authenticate" challenge response.headers;
      };
    })
