-- ===== src/Config/Validation.antt =====
-- internal/config/types.go: Validate and what it calls. An error is its text; a number in it is written
-- with the text of its sign and digits.
pub mod Whole
pub mod Accepted
use pass_ctrl.Prelude.{
  ℕ, suc, String, Bool, true, false, not, ◌&&◌, ◌||◌, Option, none, some, List, [], ◌∷◌, ◌==◌,
  if◌then◌else◌, any, is_empty, is_some, is_none, ltb, ℤ, pos, negsuc, leb_ℤ, ltb_ℤ, pos_part,
  neg_part, Result, ok, err, ◌>>=◌, ◌>>◌, reject_if, length, nat_eq,
}
use pass_ctrl.Text.{◌+s◌, trim_space, to_lower, show_nat}
use pass_ctrl.Assoc.{Assoc}
use pass_ctrl.Value.{Value}
use pass_ctrl.Config.Types.{
  Config, EndpointAuthenticationConfig, EndpointConfig, RuleAuthDirective, RuleAuthMatcher,
  RuleCacheTtlConfig, RuleConfig, RuleForwardAsConfig, ServerConfig,
}
use pass_ctrl.Config.Constraints.{parse_optional}

abbrev pub Checked : Type 0
Checked = Result (Unit {0})

abbrev quote : String → String
quote s = "\"" +s s +s "\""

abbrev show_int : ℤ → String
show_int (pos n) = show_nat n
show_int (negsuc n) = "-" +s show_nat (suc n)

-- A loop that ends with the first error.
unfoldable pub check_each : {A : Type 0} → (ℕ → A → Checked) → ℕ → List A → Checked
check_each check idx [] = ok tt
check_each check idx (x ∷ xs) = do check idx x; check_each check (suc idx) xs

-- A constraint parses, or is missing.
check_constraint : Option Value → String → Checked
check_constraint constraint context = do texts ← parse_optional constraint context; ok tt

abbrev pub typed : String → String
typed kind = to_lower (trim_space kind)

abbrev pub is_known_type : String → Bool
is_known_type typ =
    typ == "basic" || typ == "bearer" || typ == "header" || typ == "query" || typ == "none"

-- The part of validateAuthMatcher on the constraints.
check_applicability : String → RuleAuthMatcher → String → Checked
unfolding check_constraint
check_applicability typ matcher context =
    if typ == "header" || typ == "query" || typ == "bearer"
    then (do
      reject_if (is_some matcher.username)
          (context +s ".username: constraint not valid for type " +s typ)
      reject_if (is_some matcher.password)
          (context +s ".password: constraint not valid for type " +s typ)
      check_constraint matcher.value (context +s ".value"))
    else if typ == "basic"
    then (do
      reject_if (is_some matcher.value)
          (context +s ".value: constraint not valid for basic (use username/password)")
      check_constraint matcher.username (context +s ".username")
      check_constraint matcher.password (context +s ".password"))
    else reject_if (is_some matcher.value || is_some matcher.username || is_some matcher.password)
        (context +s ": value constraints not valid for type none")

-- validateAuthMatcher
unfoldable pub validate_auth_matcher : String → ℕ → RuleAuthMatcher → Checked
unfolding check_applicability
validate_auth_matcher parent idx matcher = do
  let context = parent +s ".match[" +s show_nat idx +s "]"
  let typ = typed matcher.kind
  reject_if (trim_space matcher.kind == "") (context +s ".type: required")
  reject_if (not (is_known_type typ)) (context +s ".type: unsupported type " +s quote matcher.kind)
  reject_if ((typ == "header" || typ == "query") && trim_space matcher.name == "")
      (context +s ".name: required for type " +s typ)
  check_applicability typ matcher context

-- buildForwardKey
unfoldable pub build_forward_key : RuleForwardAsConfig → String
build_forward_key fwd =
    let typ = typed fwd.kind in
    if typ == "bearer" || typ == "basic"
    then "authorization"
    else if typ == "header"
    then "header:" +s to_lower (trim_space fwd.name)
    else if typ == "query"
    then "query:" +s trim_space fwd.name
    else if typ == "none"
    then "none"
    else ""

check_forwards : String → ℕ → List String → List RuleForwardAsConfig → Checked
check_forwards context idx seen [] = ok tt
check_forwards context idx seen (fwd ∷ forwards) = do
  let key = build_forward_key fwd
  let place = context +s ".forwardAs[" +s show_nat idx +s "]: "
  reject_if (key == "") (place +s "invalid forward type")
  reject_if (any (λ other. other == key) seen) (place +s "duplicate forward target " +s key)
  check_forwards context (suc idx) (key ∷ seen) forwards

-- validateForwardAsArray
unfoldable pub validate_forward_as_array : List RuleForwardAsConfig → String → Checked
unfolding check_forwards
validate_forward_as_array forwards context = check_forwards context 0 [] forwards

is_none_matcher : RuleAuthMatcher → Bool
is_none_matcher matcher = typed matcher.kind == "none"

-- validateAuthDirective
unfoldable pub validate_auth_directive : String → ℕ → RuleAuthDirective → Checked
unfolding is_none_matcher
validate_auth_directive context idx directive = do
  let place = context +s ".auth[" +s show_nat idx +s "]"
  reject_if (is_empty directive.match) (place +s ".match: at least one matcher required")
  check_each (validate_auth_matcher place) 0 directive.match
  let has_none = any is_none_matcher directive.match
  let has_other = any (λ m. not (is_none_matcher m)) directive.match
  reject_if (has_none && has_other)
      (place +s ".match: type 'none' cannot be combined with other types in the same match group")
  reject_if (has_none && ltb 1 (length directive.match))
      (place +s ".match: type 'none' must be the only matcher in the group")
  validate_forward_as_array directive.forward_as place

-- validateBackendHeaders
unfoldable pub validate_backend_headers : String → Assoc (Option String) → Checked
validate_backend_headers context [] = ok tt
validate_backend_headers context ((name, value) ∷ headers) = do
  reject_if (typed name == "authorization")
      (context +s ": authorization header forbidden - use auth.forwardAs instead")
  validate_backend_headers context headers

-- validateVariableMap
unfoldable pub validate_variable_map : Assoc String → String → Checked
validate_variable_map [] context = ok tt
validate_variable_map ((name, expression) ∷ variables) context = do
  reject_if (trim_space name == "") (context +s ": empty variable name not allowed")
  validate_variable_map variables context
