-- ===== src/Rulechain/Auth.antt =====
-- internal/runtime/rulechain/auth.go: compiling the authentication directives of a rule. The parsers
-- of regexp and text/template come as arguments: each gives the error for a source that it refuses.
-- An error quotes a text without escaping what is in it.
use Prim.Native.String
use pass_ctrl.Prelude.{
  ℕ, suc, String, Bool, not, ◌&&◌, ◌||◌, Option, none, some, List, [], ◌∷◌, if◌then◌else◌, ◌==◌,
  Result, ok, err, ◌>>=◌, ◌>>◌, reject_if, is_empty, ltb,
}
use pass_ctrl.Text.{◌+s◌, trim_space, to_lower, has_prefix, has_suffix, show_nat}
use pass_ctrl.Rulechain.Types.{
  Template, ValueMatcher, literal, regex, AuthMatcher, AuthForwardDefinition, AuthDirective,
}

pub record AuthMatcherSpec : Type 0 where
  pub kind : String
  pub name : String
  pub value : List String
  pub username : List String
  pub password : List String

pub record AuthForwardSpec : Type 0 where
  pub kind : String
  pub name : String
  pub value : String
  pub token : String
  pub user : String
  pub password : String

pub record AuthDirectiveSpec : Type 0 where
  pub match : List AuthMatcherSpec
  pub forward_as : List AuthForwardSpec

abbrev pub quoted : String → String
quoted s = "\"" +s s +s "\""

-- fmt.Errorf("context: %w", err)
abbrev pub within {ℓ} : {A : Type ℓ} → String → Result A → Result A
within context (ok a) = ok a
within context (err e) = err (context +s ": " +s e)

-- regexp.Compile
abbrev pub RegexParser : Type 0
RegexParser = String → Option String

-- The parser of text/template, at a template's name and source; a renderer may be missing.
abbrev pub TemplateParser : Type 0
TemplateParser = String → String → Option String

-- Renderer.CompileInline
unfoldable pub compile_inline : TemplateParser → String → String → Result (Option Template)
compile_inline parser name source =
    if trim_space source == ""
    then ok none
    else elim (parser (if name == "" then "inline" else name) source) [
      | none ↦ ok (some (record { source = source }))
      | some e ↦ err ("templates: compile " +s quoted name +s ": " +s e)
    ]

-- value[1 : len(value)-1]
drop_last : String → String
drop_last String.[] = ""
drop_last (String.◌∷◌ c String.[]) = ""
drop_last (String.◌∷◌ c (String.◌∷◌ d s)) = String.◌∷◌ c (drop_last (String.◌∷◌ d s))

unfoldable pub between_ends : String → String
unfolding drop_last
between_ends String.[] = ""
between_ends (String.◌∷◌ c s) = drop_last s

-- compileValueMatcher: a text between slashes is a regular expression
unfoldable pub compile_value_matcher : RegexParser → String → Result ValueMatcher
unfolding between_ends
compile_value_matcher parser value =
    if has_prefix value "/" && has_suffix value "/" && ltb 2 (String.count value)
    then elim (parser (between_ends value)) [
      | none ↦ ok (regex (between_ends value))
      | some e ↦ err ("invalid regex pattern " +s quoted value +s ": " +s e)
    ]
    else ok (literal value)

-- A loop that compiles each member of a list, and puts the position into the first error.
unfoldable pub compile_each {ℓ κ} :
    {A : Type ℓ} {B : Type κ} → String → (ℕ → A → Result B) → ℕ → List A → Result (List B)
compile_each label compile idx [] = ok []
compile_each label compile idx (x ∷ xs) = do
  y ← within (label +s "[" +s show_nat idx +s "]") (compile idx x)
  ys ← compile_each label compile (suc idx) xs
  ok (y ∷ ys)

-- compileValueMatchers
unfoldable pub compile_value_matchers : RegexParser → List String → Result (List ValueMatcher)
compile_value_matchers parser values =
    compile_each "" (λ _ value. compile_value_matcher parser value) 0 values

abbrev pub is_matcher_type : String → Bool
is_matcher_type typ =
    typ == "basic" || typ == "bearer" || typ == "header" || typ == "query" || typ == "none"

-- compileAuthMatcher
unfoldable pub compile_auth_matcher : RegexParser → AuthMatcherSpec → Result AuthMatcher
unfolding compile_value_matchers
compile_auth_matcher parser spec = do
  let typ = to_lower (trim_space spec.kind)
  reject_if (typ == "") "type required"
  reject_if (not (is_matcher_type typ)) ("unsupported type " +s quoted spec.kind)
  let name = trim_space spec.name
  reject_if ((typ == "header" || typ == "query") && name == "") ("name required for type " +s typ)
  values ←
      (if typ == "header" || typ == "query" || typ == "bearer"
        then within "value" (compile_value_matchers parser spec.value)
        else ok [])
  usernames ←
      (if typ == "basic"
        then within "username" (compile_value_matchers parser spec.username)
        else ok [])
  passwords ←
      (if typ == "basic"
        then within "password" (compile_value_matchers parser spec.password)
        else ok [])
  ok (record {
    kind = typ;
    name = name;
    match_name = to_lower name;
    value_matchers = values;
    username_matchers = usernames;
    password_matchers = passwords;
  })

is_forward_type : String → Bool
is_forward_type typ = typ == "" || is_matcher_type typ

-- A template of a forward, where its source is not blank.
forward_template : TemplateParser → String → String → String → Result (Option Template)
forward_template parser prefix field source =
    if trim_space source == ""
    then ok none
    else within (field +s " template") (compile_inline parser (prefix +s ":" +s field) source)

-- compileAuthForward
unfoldable pub compile_auth_forward :
    Option TemplateParser → String → ℕ → ℕ → AuthForwardSpec → Result AuthForwardDefinition
unfolding is_forward_type forward_template
compile_auth_forward renderer rule_name directive_index forward_index spec = do
  let typ = to_lower (trim_space spec.kind)
  reject_if (not (is_forward_type typ)) ("type unsupported: " +s spec.kind)
  let def : AuthForwardDefinition = record {
    kind = typ;
    name = trim_space spec.name;
    value = spec.value;
    token = spec.token;
    user = spec.user;
    password = spec.password;
    name_template = none;
    value_template = none;
    token_template = none;
    user_template = none;
    password_template = none;
  }
  let prefix =
      rule_name +s ":auth:" +s show_nat directive_index +s ":forward:" +s show_nat forward_index
  elim renderer [
    | none ↦ ok def
    | some parser ↦ (do
      name ← forward_template parser prefix "name" spec.name
      value ← forward_template parser prefix "value" spec.value
      token ← forward_template parser prefix "token" spec.token
      user ← forward_template parser prefix "user" spec.user
      password ← forward_template parser prefix "password" spec.password
      ok (record def {
        name_template = name;
        value_template = value;
        token_template = token;
        user_template = user;
        password_template = password;
      }))
  ]

-- compileAuthDirective
unfoldable pub compile_auth_directive :
    RegexParser → Option TemplateParser → String → ℕ → AuthDirectiveSpec → Result AuthDirective
unfolding compile_each
compile_auth_directive parser renderer rule_name index spec = do
  reject_if (is_empty spec.match) "match: at least one matcher required"
  matchers ← compile_each "match" (λ _ m. compile_auth_matcher parser m) 0 spec.match
  forwards ←
      compile_each "forwardAs" (compile_auth_forward renderer rule_name index) 0 spec.forward_as
  ok (record { matchers = matchers; forwards = forwards })

-- compileAuthDirectives
unfoldable pub compile_auth_directives :
    RegexParser
    → Option TemplateParser
    → String
    → List AuthDirectiveSpec
    → Result (List AuthDirective)
compile_auth_directives parser renderer rule_name specs =
    compile_each "auth" (compile_auth_directive parser renderer rule_name) 0 specs
