-- ===== src/Runtime/BackendRequest.antt =====
-- internal/runtime/rule_execution_agent.go: renderBackendRequest and applyAuthForwards, the request that
-- a rule sends to its backend.
pub mod Forwarded
use pass_ctrl.Prelude.{
  String, Bool, true, false, not, ◌&&◌, ◌||◌, Option, none, some, List, [], ◌∷◌, if◌then◌else◌,
  ◌==◌, Result, ok, err, ◌>>=◌, ◌>>◌, reject_if,
}
use pass_ctrl.Text.{◌+s◌, trim_space, to_lower, has_prefix}
use pass_ctrl.Text.Utf8.{base64}
use pass_ctrl.Assoc.{Assoc, put}
use pass_ctrl.Rulechain.Types.{Template, BackendDefinition}
use pass_ctrl.Rulechain.Auth.{within}
use pass_ctrl.Rulechain.Backend.Selection.{select}
use pass_ctrl.Pipeline.State.{State}
use pass_ctrl.Runtime.Engine.{TemplateEngine}
use pass_ctrl.Runtime.RuleAuth.{RuleAuthForward, RuleAuthSelection}
use pass_ctrl.Runtime.BackendInteraction.{RenderedBackendRequest}

-- The two maps that applyAuthForwards changes.
pub record Outgoing : Type 0 where
  pub headers : Assoc String
  pub query : Assoc String

abbrev set_header : String → String → Outgoing → Outgoing
set_header name value out = record out { headers = put name value out.headers }

abbrev set_query : String → String → Outgoing → Outgoing
set_query name value out = record out { query = put name value out.query }

abbrev pub basic_value : RuleAuthForward → String
basic_value f = "Basic " +s base64 (f.user +s ":" +s f.password)

-- The switch of applyAuthForwards.
unfoldable pub apply_auth_forward : RuleAuthForward → Outgoing → Result Outgoing
apply_auth_forward f out =
    if f.kind == "" || f.kind == "none"
    then ok out
    else if f.kind == "basic"
    then (if f.user == "" || f.password == ""
        then err "basic credential missing user or password"
        else ok (set_header "Authorization" (basic_value f) out))
    else if f.kind == "bearer"
    then (if f.token == ""
        then err "bearer credential missing token"
        else ok (set_header "Authorization" ("Bearer " +s f.token) out))
    else if f.kind == "header"
    then (if f.name == ""
        then err "header credential missing name"
        else ok (set_header f.name f.value out))
    else if f.kind == "query"
    then (if f.name == ""
        then err "query credential missing name"
        else ok (set_query f.name f.value out))
    else err ("unsupported credential forward type " +s f.kind)

-- applyAuthForwards
unfoldable pub apply_auth_forwards : List RuleAuthForward → Outgoing → Result Outgoing
apply_auth_forwards [] out = ok out
apply_auth_forwards (f ∷ fs) out = do next ← apply_auth_forward f out; apply_auth_forwards fs next

-- The compiler of template files: none where there is no renderer, or it gives an error.
abbrev pub TemplateFiles : Type 0
TemplateFiles = String → Option Template

file_content : TemplateEngine → State → String → Option Template → Result String
file_content render s rendered none = ok rendered
file_content render s rendered (some template) =
    within "backend body file render" (render template s)

body_of :
    TemplateEngine → TemplateFiles → State → BackendDefinition → Option Template → Result String
unfolding file_content
body_of render files s backend none =
    ok (if trim_space backend.body == "" then "" else backend.body)
body_of render files s backend (some template) = do
  rendered ← within "backend body render" (render template s)
  file_content render s rendered
      (if trim_space rendered == "" then none else files (trim_space rendered))

is_proxy_header : String → Bool
is_proxy_header name = name == "forwarded" || has_prefix name "x-forwarded-"

add_proxy_headers : Assoc String → Assoc String → Assoc String
unfolding is_proxy_header
add_proxy_headers [] headers = headers
add_proxy_headers ((name, value) ∷ m) headers = add_proxy_headers m (
    if is_proxy_header (to_lower name) && not (trim_space value == "")
    then put (to_lower name) value headers
    else headers)

apply_selection : Option RuleAuthSelection → Outgoing → Result Outgoing
apply_selection none out = ok out
apply_selection (some selection) out =
    within "apply auth forwards" (apply_auth_forwards selection.forwards out)

-- renderBackendRequest
unfoldable pub render_backend_request :
    TemplateEngine
    → TemplateFiles
    → BackendDefinition
    → Option RuleAuthSelection
    → State
    → Result RenderedBackendRequest
unfolding body_of add_proxy_headers apply_selection
render_backend_request render files backend selection s = do
  body ← body_of render files s backend backend.body_template
  let selected = select (λ template. render template s) backend.headers s.request.headers
  let headers =
      if backend.forward_proxy_headers
      then add_proxy_headers s.forward.headers selected
      else selected
  let query = select (λ template. render template s) backend.query s.request.query
  out ← apply_selection selection (record { headers = headers; query = query })
  ok (record {
    method = if trim_space backend.method == "" then "GET" else backend.method;
    url = backend.url;
    headers = out.headers;
    query = out.query;
    body = body;
  })
