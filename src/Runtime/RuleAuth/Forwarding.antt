-- ===== src/Runtime/RuleAuth/Forwarding.antt =====
-- internal/runtime/rule_execution_agent.go: renderForward, buildForwards and prepareRuleAuth.
use pass_ctrl.Prelude.{
  String, ◌||◌, Option, none, some, List, [], ◌∷◌, if◌then◌else◌, ◌==◌, Result, ok, err, ◌>>=◌,
  ◌>>◌, reject_if, is_empty,
}
use pass_ctrl.Text.{◌+s◌, trim_space, to_lower}
use pass_ctrl.Assoc.{Assoc, put}
use pass_ctrl.Value.{Value}
use pass_ctrl.Rulechain.Types.{Template, AuthMatcher, AuthForwardDefinition, AuthDirective}
use pass_ctrl.Rulechain.Auth.{within}
use pass_ctrl.Pipeline.State.{State, RuleAuthState}
use pass_ctrl.Runtime.Engine.{TemplateEngine, RegexEngine}
use pass_ctrl.Runtime.RuleAuth.{
  ExtractedCredentials, RuleAuthForward, RuleAuthSelection, extract_credentials, check_all_matchers,
  auth_input, no_forward, build_pass_through_forwards,
}

-- renderValue, a closure of renderForward
unfoldable pub render_value : TemplateEngine → State → Option Template → String → Result String
render_value render s none literal = ok (trim_space literal)
render_value render s (some template) literal = do text ← render template s; ok (trim_space text)

-- renderForward
unfoldable pub render_forward :
    TemplateEngine → State → AuthForwardDefinition → Result RuleAuthForward
unfolding render_value
render_forward render s def =
    let kind = to_lower (trim_space def.kind) in
    if kind == "" || kind == "none"
    then ok (record no_forward { kind = kind })
    else if kind == "basic"
    then (do
      user ← within "render user" (render_value render s def.user_template def.user)
      password ← within "render password" (render_value render s def.password_template def.password)
      reject_if (user == "" || password == "") "basic credential requires user and password"
      ok (record no_forward { kind = kind; user = user; password = password }))
    else if kind == "bearer"
    then (do
      token ← within "render token" (render_value render s def.token_template def.token)
      reject_if (token == "") "bearer credential requires token"
      ok (record no_forward { kind = kind; token = token }))
    else if kind == "header"
    then (do
      name ← within "render name" (render_value render s def.name_template def.name)
      value ← within "render value" (render_value render s def.value_template def.value)
      reject_if (name == "" || value == "") "header credential requires name and value"
      ok (record no_forward { kind = kind; name = name; value = value }))
    else if kind == "query"
    then (do
      name ← within "render name" (render_value render s def.name_template def.name)
      value ← within "render value" (render_value render s def.value_template def.value)
      reject_if (name == "") "query credential requires name"
      ok (record no_forward { kind = kind; name = name; value = value }))
    else err ("unsupported forward type " +s kind)

render_forwards :
    TemplateEngine → State → List AuthForwardDefinition → Result (List RuleAuthForward)
render_forwards render s [] = ok []
render_forwards render s (def ∷ defs) = do
  forward ← render_forward render s def
  forwards ← render_forwards render s defs
  ok (forward ∷ forwards)

-- buildForwards
unfoldable pub build_forwards :
    TemplateEngine → State → AuthDirective → ExtractedCredentials → Result (List RuleAuthForward)
unfolding render_forwards
build_forwards render s directive extracted =
    if is_empty directive.forwards
    then ok (build_pass_through_forwards directive.matchers extracted)
    else render_forwards render s directive.forwards

put_nonempty : String → String → Assoc Value → Assoc Value
put_nonempty key text m = if text == "" then m else put key (Value.str text) m

-- ruleAuthForward.toMap
unfoldable pub to_map : RuleAuthForward → Assoc Value
unfolding put_nonempty
to_map f = put_nonempty "password" f.password (
    put_nonempty "user" f.user (
      put_nonempty "token" f.token (
        put_nonempty "value" f.value (put_nonempty "name" f.name (put_nonempty "type" f.kind [])))))

-- What prepareRuleAuth returns: a status of "" lets the rule go on.
pub record PreparedAuth : Type 0 where
  pub selection : Option RuleAuthSelection
  pub status : String
  pub reason : String

abbrev pub set_auth : RuleAuthState → State → State
set_auth auth s = let rule = s.rule in record s { rule = record rule { auth = auth } }

abbrev pub set_auth_input : Assoc Value → State → State
set_auth_input input s = let auth = s.rule.auth in set_auth (record auth { input = input }) s

abbrev first_kind : List AuthMatcher → String → String
first_kind [] selected = selected
first_kind (m ∷ ms) selected = m.kind

abbrev first_forward : List RuleAuthForward → Assoc Value → Assoc Value
first_forward [] forward = forward
first_forward (f ∷ fs) forward = to_map f

-- The rest of the loop's body, once a directive matches. The state has the context's input.
unfoldable pub finish_auth :
    AuthDirective
    → ExtractedCredentials
    → State
    → Result (List RuleAuthForward)
    → PreparedAuth × State
finish_auth directive extracted s (err e) = (
  record {
    selection = none;
    status = "error";
    reason = "rule authentication forward failed: " +s e;
  },
  s,
)
finish_auth directive extracted s (ok forwards) = (
  record {
    selection = some (record { directive = directive; extracted = extracted; forwards = forwards });
    status = "";
    reason = "";
  },
  set_auth
      (record {
        selected = first_kind directive.matchers s.rule.auth.selected;
        input = s.rule.auth.input;
        forward = first_forward forwards s.rule.auth.forward;
      })
      s,
)

-- The loop of prepareRuleAuth.
unfoldable pub try_directives :
    TemplateEngine
    → RegexEngine
    → ExtractedCredentials
    → List AuthDirective
    → State
    → PreparedAuth × State
unfolding finish_auth
try_directives render regex extracted [] s = (
  record {
    selection = none;
    status = "fail";
    reason = "rule authentication did not match any credential";
  },
  set_auth_input (put "type" (Value.str "unmatched") s.rule.auth.input) s,
)
try_directives render regex extracted (d ∷ ds) s =
    let rest = try_directives render regex extracted ds s in
    let prepared = set_auth_input (auth_input extracted) s in
    if check_all_matchers regex d.matchers extracted
    then finish_auth d extracted prepared (build_forwards render prepared d extracted)
    else rest

abbrev pub clear_auth : State → State
clear_auth = set_auth (record { selected = ""; input = []; forward = [] })

-- prepareRuleAuth
unfoldable pub prepare_rule_auth :
    TemplateEngine → RegexEngine → List AuthDirective → State → PreparedAuth × State
unfolding try_directives
prepare_rule_auth render regex directives s =
    let cleared = clear_auth s in
    if is_empty directives
    then (record { selection = none; status = ""; reason = "" }, cleared)
    else try_directives render regex (extract_credentials s.admission.credentials) directives
        cleared
