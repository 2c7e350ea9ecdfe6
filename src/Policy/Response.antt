-- ===== src/Policy/Response.antt =====
-- internal/runtime/responsepolicy/agent.go: the response for the outcome of the rules. The renderer of
-- templates comes as an argument, and so does the compiler of template files.
use pass_ctrl.Prelude.{
  String, not, Option, none, some, [], ◌∷◌, ◌==◌, if◌then◌else◌, ℤ, pos, ltb_ℤ, Result, ok, err,
}
use pass_ctrl.Text.{◌+s◌, trim_space, to_lower, contains}
use pass_ctrl.Assoc.{Assoc, get, put}
use pass_ctrl.Rulechain.Types.{Template}
use pass_ctrl.Rulechain.Auth.{TemplateParser, compile_inline}
use pass_ctrl.Pipeline.State.{AgentResult, State}
use pass_ctrl.Runtime.Engine.{TemplateEngine}

-- A header without a text is copied from the request.
pub record CategoryConfig : Type 0 where
  pub status : ℤ
  pub body : String
  pub body_file : String
  pub headers : Assoc (Option String)

pub record ResponsePolicyConfig : Type 0 where
  pub endpoint : String
  pub pass : CategoryConfig
  pub fail : CategoryConfig
  pub error : CategoryConfig

pub record CompiledCategory : Type 0 where
  pub status : ℤ
  pub body : Option Template
  pub headers : Assoc (Option String)
  pub header_templates : Assoc Template

pub record ResponsePolicy : Type 0 where
  pub pass : CompiledCategory
  pub fail : CompiledCategory
  pub error : CompiledCategory

abbrev no_category : CompiledCategory
no_category = record { status = pos 0; body = none; headers = []; header_templates = [] }

template_or_none : Result (Option Template) → Option Template
template_or_none (ok template) = template
template_or_none (err e) = none

put_template : String → Option Template → Assoc Template → Assoc Template
put_template name none out = out
put_template name (some template) out = put name template out

module _ (parser : TemplateParser) (compile_file : String → Result (Option Template)) where
  -- A header whose template does not compile has no entry, which a lookup cannot tell from a nil one.
  compile_header : String → String → Option String → Assoc Template → Assoc Template
  unfolding put_template template_or_none
  compile_header prefix name none out = out
  compile_header prefix name (some value) out =
      if contains value "{{"
      then put_template name (template_or_none (compile_inline parser (prefix +s name) value)) out
      else out

  compile_headers : String → Assoc (Option String) → Assoc Template → Assoc Template
  unfolding compile_header
  compile_headers prefix [] out = out
  compile_headers prefix ((name, value) ∷ m) out =
      compile_headers prefix m (compile_header prefix name value out)

  compile_category : String → String → CategoryConfig → CompiledCategory
  unfolding compile_headers template_or_none
  compile_category endpoint name cat = record {
    status = cat.status;
    headers = cat.headers;
    body =
        if not (trim_space cat.body == "")
        then template_or_none (compile_inline parser (endpoint +s ":" +s name +s ":body") cat.body)
        else if not (trim_space cat.body_file == "")
        then template_or_none (compile_file cat.body_file)
        else none;
    header_templates = compile_headers (endpoint +s ":" +s name +s ":header:") cat.headers [];
  }

  -- NewWithConfig, with a renderer
  unfoldable pub new_response_policy : ResponsePolicyConfig → ResponsePolicy
  unfolding compile_category
  new_response_policy config = record {
    pass = compile_category config.endpoint "pass" config.pass;
    fail = compile_category config.endpoint "fail" config.fail;
    error = compile_category config.endpoint "error" config.error;
  }

-- categoryFor
unfoldable pub category_for : ResponsePolicy → String → CompiledCategory
category_for policy outcome =
    if outcome == "pass"
    then policy.pass
    else if outcome == "fail"
    then policy.fail
    else if outcome == "error"
    then policy.error
    else no_category

unfoldable pub default_status : String → ℤ
default_status outcome =
    if outcome == "fail"
    then pos 403
    else if outcome == "error"
    then pos 502
    else if outcome == ""
    then pos 500
    else pos 200

rendered_or : String → Result String → String
rendered_or text (ok rendered) = rendered
rendered_or text (err e) = text

module _ (engine : TemplateEngine) (s : State) where
  -- The text of a header with a template, if it has one.
  header_value : Option Template → String → String
  unfolding rendered_or
  header_value none value = trim_space value
  header_value (some template) value = trim_space (rendered_or value (engine template s))

  copied : String → Option String → Assoc String → Assoc String
  copied name none out = out
  copied name (some value) out = put name value out

  add_header : Assoc Template → String → Option String → Assoc String → Assoc String
  unfolding header_value copied
  add_header templates name none out =
      copied (to_lower name) (get (to_lower name) s.request.headers) out
  add_header templates name (some given) out =
      let value = header_value (get name templates) given in
      if value == "" then out else put (to_lower name) value out

  response_headers : Assoc Template → Assoc (Option String) → Assoc String → Assoc String
  unfolding add_header
  response_headers templates [] out = out
  response_headers templates ((name, value) ∷ m) out =
      response_headers templates m (add_header templates name value out)

  body_text : Option Template → String
  unfolding rendered_or
  body_text none = ""
  body_text (some body) = rendered_or "" (engine body s)

  with_outcome : String → Assoc String → Assoc String
  with_outcome outcome headers =
      if outcome == "" then headers else put "X-PassCtrl-Outcome" outcome headers

-- Execute
unfoldable pub execute_response_policy :
    TemplateEngine → ResponsePolicy → State → AgentResult × State
unfolding response_headers body_text with_outcome
execute_response_policy engine policy s =
    let outcome = to_lower s.rule.outcome in
    let cat = category_for policy outcome in
    let response = s.response in
    if ltb_ℤ (pos 0) s.response.status
    then (record { name = "response_policy"; status = "cached"; details = "" }, s)
    else (
      record { name = "response_policy"; status = "ready"; details = "" },
      record s {
        response = record response {
          status = if ltb_ℤ (pos 0) cat.status then cat.status else default_status outcome;
          message = body_text engine s cat.body;
          headers =
              with_outcome engine s outcome
                (response_headers engine s cat.header_templates cat.headers []);
        };
      },
    )
