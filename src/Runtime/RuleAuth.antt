-- ===== src/Runtime/RuleAuth.antt =====
-- internal/runtime/rule_execution_agent.go, prepareRuleAuth and what it calls: choosing the credentials
-- that a rule accepts, and those that it forwards to its backend.
pub mod Extraction
pub mod Forwarding
pub mod Matching
pub mod Selection
use pass_ctrl.Prelude.{
  arith, eq_iff, ◌≡◌, ◌⊎◌, false, String, Bool, true, ◌&&◌, ◌||◌, Option, none, some, List, [], ◌∷◌,
  ◌++◌, if◌then◌else◌, ◌==◌, Result, ok, err, ◌>>=◌, reject_if, is_empty, any, map,
}
use pass_ctrl.Text.{◌+s◌, trim_space, to_lower}
use pass_ctrl.Assoc.{Assoc, get, put, put_all}
use pass_ctrl.Value.{Value, Fields}
use pass_ctrl.Rulechain.Types.{
  Template, ValueMatcher, AuthMatcher, AuthForwardDefinition, AuthDirective,
}
use pass_ctrl.Rulechain.Auth.{within}
use pass_ctrl.Pipeline.State.{AdmissionCredential, State}
use pass_ctrl.Runtime.Engine.{TemplateEngine, RegexEngine, matches}

pub record ExtractedCredentials : Type 0 where
  pub bearer : Option AdmissionCredential
  pub basic : Option AdmissionCredential
  pub headers : Assoc AdmissionCredential
  pub query : Assoc AdmissionCredential

pub record RuleAuthForward : Type 0 where
  pub kind : String
  pub name : String
  pub value : String
  pub token : String
  pub user : String
  pub password : String

pub record RuleAuthSelection : Type 0 where
  pub directive : AuthDirective
  pub extracted : ExtractedCredentials
  pub forwards : List RuleAuthForward

abbrev pub nothing_extracted : ExtractedCredentials
nothing_extracted = record { bearer = none; basic = none; headers = []; query = [] }

-- The switch of extractCredentials.
unfoldable pub keep_credential : AdmissionCredential → ExtractedCredentials → ExtractedCredentials
keep_credential cred e =
    if cred.kind == "bearer"
    then record e { bearer = some cred }
    else if cred.kind == "basic"
    then record e { basic = some cred }
    else if cred.kind == "header"
    then record e { headers = put (to_lower cred.name) cred e.headers }
    else if cred.kind == "query"
    then record e { query = put cred.name cred e.query }
    else e

unfoldable keep_credentials : List AdmissionCredential → ExtractedCredentials → ExtractedCredentials
keep_credentials [] e = e
keep_credentials (cred ∷ creds) e = keep_credentials creds (keep_credential cred e)

-- extractCredentials
unfoldable pub extract_credentials : List AdmissionCredential → ExtractedCredentials
unfolding keep_credentials
extract_credentials creds = keep_credentials creds nothing_extracted

-- matchesAnyValueMatcher
unfoldable pub matches_any_value_matcher : RegexEngine → String → List ValueMatcher → Bool
matches_any_value_matcher regex input matchers =
    is_empty matchers || any (matches regex input) matchers

-- Whether there is a credential, and a field of it matches.
abbrev pub matches_field :
    RegexEngine
    → (AdmissionCredential → String)
    → List ValueMatcher
    → Option AdmissionCredential
    → Bool
matches_field regex field matchers none = false
matches_field regex field matchers (some cred) =
    matches_any_value_matcher regex (field cred) matchers

-- The switch of checkAllMatchers. A kind that compileAuthMatcher does not know constrains nothing.
unfoldable pub check_matcher : RegexEngine → ExtractedCredentials → AuthMatcher → Bool
check_matcher regex e m =
    if m.kind == "bearer"
    then matches_field regex (λ cred. cred.token) m.value_matchers e.bearer
    else if m.kind == "basic"
    then matches_field regex (λ cred. cred.username) m.username_matchers e.basic
      && matches_field regex (λ cred. cred.password) m.password_matchers e.basic
    else if m.kind == "header"
    then matches_field regex (λ cred. cred.value) m.value_matchers (get m.match_name e.headers)
    else if m.kind == "query"
    then matches_field regex (λ cred. cred.value) m.value_matchers (get m.name e.query)
    else true

-- checkAllMatchers
unfoldable pub check_all_matchers : RegexEngine → List AuthMatcher → ExtractedCredentials → Bool
check_all_matchers regex [] e = true
check_all_matchers regex (m ∷ ms) e = check_matcher regex e m && check_all_matchers regex ms e

-- A map of a template context.
unfoldable pub fields : Assoc Value → Fields
fields [] = Fields.no_fields
fields ((name, value) ∷ m) = Fields.field name value (fields m)

abbrev pub credential_values : Assoc AdmissionCredential → Fields
credential_values [] = Fields.no_fields
credential_values ((name, cred) ∷ m) =
    Fields.field name (Value.str cred.value) (credential_values m)

bearer_input : Option AdmissionCredential → Assoc Value → Assoc Value
bearer_input none input = input
bearer_input (some cred) input =
    put "bearer" (Value.obj (Fields.field "token" (Value.str cred.token) Fields.no_fields)) input

basic_input : Option AdmissionCredential → Assoc Value → Assoc Value
basic_input none input = input
basic_input (some cred) input =
    put "basic"
      (Value.obj (
        Fields.field "user" (Value.str cred.username)
          (Fields.field "password" (Value.str cred.password) Fields.no_fields)))
      input

map_input : String → Assoc AdmissionCredential → Assoc Value → Assoc Value
map_input key m input =
    if is_empty m then input else put key (Value.obj (credential_values m)) input

-- buildAuthTemplateContext: the map that becomes state.Rule.Auth.Input
unfoldable pub auth_input : ExtractedCredentials → Assoc Value
unfolding bearer_input basic_input map_input
auth_input e =
    map_input "query" e.query
      (map_input "header" e.headers (basic_input e.basic (bearer_input e.bearer [])))

abbrev pub no_forward : RuleAuthForward
no_forward = record { kind = ""; name = ""; value = ""; token = ""; user = ""; password = "" }

abbrev pub bearer_forward : AdmissionCredential → RuleAuthForward
bearer_forward cred = record no_forward { kind = "bearer"; token = cred.token }

abbrev pub basic_forward : AdmissionCredential → RuleAuthForward
basic_forward cred = record no_forward {
  kind = "basic";
  user = cred.username;
  password = cred.password;
}

abbrev pub named_forward : String → AdmissionCredential → RuleAuthForward
named_forward kind cred = record no_forward { kind = kind; name = cred.name; value = cred.value }

abbrev pub forward_of :
    (AdmissionCredential → RuleAuthForward) → Option AdmissionCredential → List RuleAuthForward
forward_of f none = []
forward_of f (some cred) = f cred ∷ []

-- The switch of buildPassThroughForwards.
unfoldable pub pass_through : ExtractedCredentials → AuthMatcher → List RuleAuthForward
pass_through e m =
    if m.kind == "bearer"
    then forward_of bearer_forward e.bearer
    else if m.kind == "basic"
    then forward_of basic_forward e.basic
    else if m.kind == "header"
    then forward_of (named_forward "header") (get m.match_name e.headers)
    else if m.kind == "query"
    then forward_of (named_forward "query") (get m.name e.query)
    else []

-- buildPassThroughForwards
unfoldable pub build_pass_through_forwards :
    List AuthMatcher → ExtractedCredentials → List RuleAuthForward
build_pass_through_forwards [] e = []
build_pass_through_forwards (m ∷ ms) e = pass_through e m ++ build_pass_through_forwards ms e

-- The kinds that the switches tell apart, the rest as one.
pub kind-cases :
    (kind : String)
    → (kind ≡ "bearer")
      ⊎ (kind ≡ "basic")
      ⊎ (kind ≡ "header")
      ⊎ (kind ≡ "query")
      ⊎ (((kind == "bearer") ≡ false)
          × ((kind == "basic") ≡ false)
          × ((kind == "header") ≡ false)
          × ((kind == "query") ≡ false))
kind-cases kind =
    ground
      (arith, eq_iff kind "bearer", eq_iff kind "basic", eq_iff kind "header", eq_iff kind "query")
