-- ===== src/Config/Validation/Accepted.antt =====
-- What a validated configuration is.
use pass_ctrl.Prelude.{
  ap, sym, ℕ, suc, String, ◌≡◌, ◌≢◌, ◌⊎◌, refl, Bool, true, false, not, ◌&&◌, ◌||◌, Option, none,
  some, List, [], ◌∷◌, ◌==◌, ok, ◌>>◌, reject_if, >>-eq-ok, reject_if-eq-ok, >>=-eq-ok,
  ok-injective, All, Any, inl, inr, Bool-cases, arith, eq_iff, any, map, is_some, is_empty, ltb,
  length,
}
use pass_ctrl.Text.{◌+s◌, trim_space, show_nat}
use pass_ctrl.Assoc.{Assoc}
use pass_ctrl.Value.{Value}
use pass_ctrl.Config.Constraints.{parse_optional}
use pass_ctrl.Config.Constraints.Parsed.{Parses, parse_optional-Parses}
use pass_ctrl.Config.Types.{
  Config, RuleAuthDirective, RuleAuthMatcher, RuleConfig, RuleForwardAsConfig,
}
use pass_ctrl.Config.Validation.{
  Checked, build_forward_key, check_each, check_forwards, typed, validate_auth_directive,
  validate_auth_matcher, validate_backend_headers, validate_forward_as_array, is_none_matcher,
  check_constraint, check_applicability, is_known_type,
}
use pass_ctrl.Config.Validation.Whole.{
  validate, validate_endpoints, validate_rule_config, validate_rules,
}

check_each-All :
    {A : Type 0} (check : ℕ → A → Checked) (idx : ℕ) (xs : List A)
    → check_each check idx xs ≡ ok tt
    → All (λ x. (i : ℕ) × (check i x ≡ ok tt)) xs
unfolding check_each
check_each-All check idx [] h = tt
check_each-All check idx (x ∷ xs) h =
    let both = >>-eq-ok (check idx x) (check_each check (suc idx) xs) h in
    ((idx, both.0), check_each-All check (suc idx) xs both.1)

-- No header for the backend is the Authorization header.
validate_backend_headers-All :
    (context : String) (headers : Assoc (Option String))
    → validate_backend_headers context headers ≡ ok tt
    → All (λ entry. typed entry.0 ≢ "authorization") headers
unfolding validate_backend_headers
validate_backend_headers-All context [] h = tt
validate_backend_headers-All context ((name, value) ∷ headers) h =
    let both = >>-eq-ok _ (validate_backend_headers context headers) h in
    let differs = reject_if-eq-ok _ _ both.0 in
    (
      λ p. ground (arith, eq_iff (typed name) "authorization"),
      validate_backend_headers-All context headers both.1,
    )

-- No text is there twice, nor one of those before, and none is empty.
abbrev AreNew : List String → List String → Type 0
AreNew seen [] = Unit
AreNew seen (key ∷ keys) = (key ≢ "") × ¬ Any (λ other. other ≡ key) seen × AreNew (key ∷ seen) keys

any-Any :
    (key : String) (seen : List String)
    → any (λ other. other == key) seen ≡ false
    → ¬ Any (λ other. other ≡ key) seen
any-Any key [] h k = k
any-Any key (x ∷ seen) h (inl e) = let same = (eq_iff x key).1 e in ground arith
any-Any key (x ∷ seen) h (inr k) = any-Any key seen (ground arith) k

check_forwards-AreNew :
    (context : String) (idx : ℕ) (seen : List String) (forwards : List RuleForwardAsConfig)
    → check_forwards context idx seen forwards ≡ ok tt
    → AreNew seen (map build_forward_key forwards)
unfolding check_forwards
check_forwards-AreNew context idx seen [] = λ h. tt
check_forwards-AreNew context idx seen (fwd ∷ forwards) =
    let key = build_forward_key fwd in
    elim (Bool-cases (key == "")) [
      | inl e ↦ rw e (λ h. cc)
      | inr e ↦ elim (Bool-cases (any (λ other. other == key) seen)) [
        | inl f ↦ rw (e, f) (λ h. cc)
        | inr f ↦
            rw (e, f)
              (λ h. (
                λ p. ground (arith, eq_iff key ""),
                any-Any key seen f,
                check_forwards-AreNew context (suc idx) (key ∷ seen) forwards h,
              ))
      ]
    ]

build_forward_key-known :
    (fwd : RuleForwardAsConfig) → build_forward_key fwd ≢ "" → is_known_type (typed fwd.kind) ≡ true
unfolding build_forward_key
build_forward_key-known fwd filled = elim (Bool-cases (is_known_type (typed fwd.kind))) [
  | inl e ↦ e
  | inr e ↦ elim (filled (ground arith)) [ ]
]

AreNew-AreKnown :
    (seen : List String) (forwards : List RuleForwardAsConfig)
    → AreNew seen (map build_forward_key forwards)
    → All (λ fwd. is_known_type (typed fwd.kind) ≡ true) forwards
AreNew-AreKnown seen [] h = tt
AreNew-AreKnown seen (fwd ∷ forwards) h =
    (build_forward_key-known fwd h.0, AreNew-AreKnown (build_forward_key fwd ∷ seen) forwards h.2)

-- A matcher of a known kind, with a name where it needs one, whose constraints parse.
pub record IsValidMatcher (m : RuleAuthMatcher) : Type 0 where
  pub kind : is_known_type (typed m.kind) ≡ true
  pub name : (typed m.kind ≡ "header") ⊎ (typed m.kind ≡ "query") → trim_space m.name ≢ ""
  pub value : Parses m.value
  pub username : Parses m.username
  pub password : Parses m.password

missing : (raw : Option Value) → is_some raw ≡ false → Parses raw
missing none h = ([], λ d. refl)
missing (some v) h = cc

check_constraint-Parses :
    (raw : Option Value) (context : String) → check_constraint raw context ≡ ok tt → Parses raw
unfolding check_constraint
check_constraint-Parses raw context h =
    let bound = >>=-eq-ok (parse_optional raw context) _ h in
    parse_optional-Parses raw context bound.1

-- The constraints of a matcher all parse.
abbrev AllParse : RuleAuthMatcher → Type 0
AllParse m = Parses m.value × Parses m.username × Parses m.password

check_applicability-AllParse :
    (typ : String) (m : RuleAuthMatcher) (context : String)
    → check_applicability typ m context ≡ ok tt
    → AllParse m
unfolding check_applicability
check_applicability-AllParse typ m context =
    elim (Bool-cases (typ == "header" || typ == "query" || typ == "bearer")) [
      | inl e ↦ rw e (λ h.
          let first = >>-eq-ok _ _ h in
          let second = >>-eq-ok _ _ first.1 in
          (
            check_constraint-Parses m.value (context +s ".value") second.1,
            missing m.username (reject_if-eq-ok _ _ first.0),
            missing m.password (reject_if-eq-ok _ _ second.0),
          ))
      | inr e ↦ elim (Bool-cases (typ == "basic")) [
        | inl b ↦
            rw (e, b)
              (λ h.
                let first = >>-eq-ok _ _ h in
                let second = >>-eq-ok _ _ first.1 in
                (
                  missing m.value (reject_if-eq-ok _ _ first.0),
                  check_constraint-Parses m.username (context +s ".username") second.0,
                  check_constraint-Parses m.password (context +s ".password") second.1,
                ))
        | inr b ↦
            rw (e, b)
              (λ h.
                let none_given = reject_if-eq-ok _ _ h in
                (
                  missing m.value (ground arith),
                  missing m.username (ground arith),
                  missing m.password (ground arith),
                ))
      ]
    ]

needs_name : String → Bool
needs_name typ = typ == "header" || typ == "query"

titled :
    (m : RuleAuthMatcher)
    → (needs_name (typed m.kind) && trim_space m.name == "") ≡ false
    → (typed m.kind ≡ "header") ⊎ (typed m.kind ≡ "query")
    → trim_space m.name ≢ ""
unfolding needs_name
titled m h (inl k) p =
    let blank = (eq_iff (trim_space m.name) "").1 p in
    let kind = (eq_iff (typed m.kind) "header").1 k in ground arith
titled m h (inr k) p =
    let blank = (eq_iff (trim_space m.name) "").1 p in
    let kind = (eq_iff (typed m.kind) "query").1 k in ground arith

validate_auth_matcher-IsValidMatcher :
    (parent : String) (idx : ℕ) (m : RuleAuthMatcher)
    → validate_auth_matcher parent idx m ≡ ok tt
    → IsValidMatcher m
unfolding validate_auth_matcher needs_name
validate_auth_matcher-IsValidMatcher parent idx m = elim (Bool-cases (trim_space m.kind == "")) [
  | inl a ↦ rw a (λ h. cc)
  | inr a ↦ elim (Bool-cases (is_known_type (typed m.kind))) [
    | inr b ↦ rw (a, b) (λ h. cc)
    | inl b ↦ elim (Bool-cases (needs_name (typed m.kind) && trim_space m.name == "")) [
      | inl c ↦ rw (a, b, c) (λ h. cc)
      | inr c ↦
          rw (a, b, c)
            (λ h.
              let parsed =
                check_applicability-AllParse (typed m.kind) m
                  (parent +s ".match[" +s show_nat idx +s "]") h in
              record {
                kind = b;
                name = titled m c;
                value = parsed.0;
                username = parsed.1;
                password = parsed.2;
              })
    ]
  ]
]

-- Matchers of known kinds, at least one, and forwards of known kinds, with different keys.
pub record IsValidDirective (d : RuleAuthDirective) : Type 0 where
  pub match : d.match ≢ []
  pub matchers : All IsValidMatcher d.match
  pub kinds : All (λ fwd. is_known_type (typed fwd.kind) ≡ true) d.forward_as
  pub forwards : AreNew [] (map build_forward_key d.forward_as)

-- A rule whose directives are valid, and which sends no Authorization header of its own.
pub record IsValidRule (rule : RuleConfig) : Type 0 where
  pub auth : All IsValidDirective rule.auth
  pub headers : All (λ entry. typed entry.0 ≢ "authorization") rule.backend_api.headers

pub All-map :
    {A : Type 0} (P Q : A → Type 0) (xs : List A) → ((x : A) → P x → Q x) → All P xs → All Q xs
All-map P Q [] f h = tt
All-map P Q (x ∷ xs) f h = (f x h.0, All-map P Q xs f h.1)

filled : {A : Type 0} (xs : List A) → is_empty xs ≡ false → xs ≢ []
filled [] h p = cc
filled (x ∷ xs) h p = cc

validate_auth_directive-IsValidDirective :
    (context : String) (idx : ℕ) (d : RuleAuthDirective)
    → validate_auth_directive context idx d ≡ ok tt
    → IsValidDirective d
unfolding validate_auth_directive validate_forward_as_array
validate_auth_directive-IsValidDirective context idx d h =
    let place = context +s ".auth[" +s show_nat idx +s "]" in
    let has_none = any is_none_matcher d.match in
    let has_other = any (λ m. not (is_none_matcher m)) d.match in
    let forwards = validate_forward_as_array d.forward_as place in
    let single =
      reject_if (has_none && ltb 1 (length d.match))
        (place +s ".match: type 'none' must be the only matcher in the group") in
    let alone = reject_if (has_none && has_other) (
      place +s ".match: type 'none' cannot be combined with other types in the same match group") in
    let some_match =
      reject_if (is_empty d.match) (place +s ".match: at least one matcher required") in
    let matchers = check_each (validate_auth_matcher place) 0 d.match in
    let a = >>-eq-ok some_match (matchers >> (alone >> (single >> forwards))) h in
    let b = >>-eq-ok matchers (alone >> (single >> forwards)) a.1 in
    let c = >>-eq-ok alone (single >> forwards) b.1 in
    let f = >>-eq-ok single forwards c.1 in
    record {
      match = filled d.match (reject_if-eq-ok _ _ a.0);
      matchers =
          All-map (λ m. (i : ℕ) × (validate_auth_matcher place i m ≡ ok tt)) IsValidMatcher d.match
            (λ m k. validate_auth_matcher-IsValidMatcher place k.0 m k.1)
            (check_each-All (validate_auth_matcher place) 0 d.match b.0);
      kinds = AreNew-AreKnown [] d.forward_as (check_forwards-AreNew place 0 [] d.forward_as f.1);
      forwards = check_forwards-AreNew place 0 [] d.forward_as f.1;
    }

validate_rule_config-IsValidRule :
    (name : String) (rule : RuleConfig) → validate_rule_config name rule ≡ ok tt → IsValidRule rule
unfolding validate_rule_config
validate_rule_config-IsValidRule name rule h =
    let place = "rules[" +s name +s "]" in
    let a = >>-eq-ok (check_each (validate_auth_directive place) 0 rule.auth) _ h in
    let b = >>-eq-ok _ _ a.1 in
    record {
      auth =
          All-map (λ d. (i : ℕ) × (validate_auth_directive place i d ≡ ok tt)) IsValidDirective
            rule.auth (λ d k. validate_auth_directive-IsValidDirective place k.0 d k.1)
            (check_each-All (validate_auth_directive place) 0 rule.auth a.0);
      headers =
          validate_backend_headers-All (place +s ".backendApi.headers") rule.backend_api.headers
            b.0;
    }

validate_rules-All :
    (rules : Assoc RuleConfig)
    → validate_rules rules ≡ ok tt
    → All (λ entry. IsValidRule entry.1) rules
unfolding validate_rules
validate_rules-All [] h = tt
validate_rules-All ((name, rule) ∷ rules) h =
    let both = >>-eq-ok (validate_rule_config name rule) (validate_rules rules) h in
    (validate_rule_config-IsValidRule name rule both.0, validate_rules-All rules both.1)

-- In a configuration that the validation accepts, every directive of every rule has a matcher, and only
-- matchers of known types, with a name where the type needs one, whose constraints all parse; its forwards
-- are of known types, and no two of them have the same key, which is authorization for basic and bearer,
-- none for none, and for a header or a query parameter this type with the trimmed name, a header's in
-- lower case; and no rule sets the Authorization header of its backend.
pub validate-IsValidRule :
    (config valid : Config)
    → validate config ≡ ok valid
    → All (λ entry. IsValidRule entry.1) valid.rules
unfolding validate
validate-IsValidRule config valid h =
    let server = >>-eq-ok _ _ h in
    let endpoints = >>=-eq-ok (validate_endpoints config.endpoints) _ server.1 in
    let rules = >>-eq-ok (validate_rules config.rules) _ endpoints.2 in
    let same : valid.rules ≡ config.rules = ap (λ c. c.rules) (sym (ok-injective rules.1)) in
    rw same (validate_rules-All config.rules rules.0)
