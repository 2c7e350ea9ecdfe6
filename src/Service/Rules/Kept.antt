-- ===== src/Service/Rules/Kept.antt =====
-- What buildRuleAuthSpec keeps of a validated rule.
use pass_ctrl.Prelude.{
  ℕ, suc, String, ◌≡◌, ◌≢◌, refl, sym, ap, Option, none, some, List, [], ◌∷◌, ok, ok-injective,
  >>=-eq-ok, All,
}
use pass_ctrl.Text.{trim_space}
use pass_ctrl.Value.{Value, Values, no_values, value}
use pass_ctrl.Rulechain.Auth.{AuthDirectiveSpec, AuthMatcherSpec}
use pass_ctrl.Config.Types.{Config, RuleAuthDirective, RuleAuthMatcher, RuleConfig}
use pass_ctrl.Config.Constraints.{parse_optional, parse_value_constraint, text_of, texts_of}
use pass_ctrl.Config.Validation.Whole.{validate}
use pass_ctrl.Config.Validation.Accepted.{
  All-map, IsValidDirective, IsValidMatcher, IsValidRule, validate-IsValidRule,
}
use pass_ctrl.Service.Rules.{
  build_matcher_spec, build_matcher_specs, build_rule_auth_spec, keep_matcher,
}

-- The texts of an array of strings.
abbrev pub IsList : Values → List String → Type 0
IsList no_values [] = Unit
IsList no_values (text ∷ texts) = ⊥
IsList (value item items) [] = ⊥
IsList (value item items) (text ∷ texts) = (item ≡ Value.str text) × IsList items texts

-- What a constraint of the configuration says: nothing, a text, or an array of them.
abbrev pub IsConstraint : Option Value → List String → Type 0
IsConstraint none texts = texts ≡ []
IsConstraint (some Value.null) texts = texts ≡ []
IsConstraint (some (Value.str text)) texts = texts ≡ text ∷ []
IsConstraint (some (Value.arr items)) texts = (texts ≢ []) × IsList items texts
IsConstraint (some _) texts = ⊥

-- The specification of a matcher: its kind and its name, without white space around them, and its
-- constraints.
pub record IsSpecOf (m : RuleAuthMatcher) (spec : AuthMatcherSpec) : Type 0 where
  pub kind : spec.kind ≡ trim_space m.kind
  pub name : spec.name ≡ trim_space m.name
  pub value : IsConstraint m.value spec.value
  pub username : IsConstraint m.username spec.username
  pub password : IsConstraint m.password spec.password

abbrev pub AreSpecsOf : List RuleAuthMatcher → List AuthMatcherSpec → Type 0
AreSpecsOf [] [] = Unit
AreSpecsOf [] (spec ∷ specs) = ⊥
AreSpecsOf (m ∷ ms) [] = ⊥
AreSpecsOf (m ∷ ms) (spec ∷ specs) = IsSpecOf m spec × AreSpecsOf ms specs

text_of-str :
    (context : String) (idx : ℕ) (item : Value) (text : String)
    → text_of context idx item ≡ ok text
    → item ≡ Value.str text
unfolding text_of
text_of-str context idx Value.null text h = cc
text_of-str context idx (Value.bool b) text h = cc
text_of-str context idx (Value.int n) text h = cc
text_of-str context idx (Value.float f) text h = cc
text_of-str context idx (Value.str s) text h = ap Value.str (ok-injective h)
text_of-str context idx (Value.obj _) text h = cc
text_of-str context idx (Value.arr items) text h = cc

texts_of-IsList :
    (context : String) (idx : ℕ) (items : Values) (texts : List String)
    → texts_of context idx items ≡ ok texts
    → IsList items texts
unfolding texts_of
texts_of-IsList context idx no_values texts h = rw (← ok-injective h) tt
texts_of-IsList context idx (value item items) texts h =
    let first = >>=-eq-ok (text_of context idx item) _ h in
    let second = >>=-eq-ok (texts_of context (suc idx) items) _ first.2 in
    rw (← ok-injective second.2) (
      text_of-str context idx item first.0 first.1,
      texts_of-IsList context (suc idx) items second.0 second.1,
    )

IsList-nonempty :
    (item : Value) (items : Values) (texts : List String)
    → IsList (value item items) texts
    → texts ≢ []
IsList-nonempty item items [] h p = absurd h
IsList-nonempty item items (text ∷ texts) h p = cc

parse_optional-IsConstraint :
    (raw : Option Value) (context : String) (texts : List String)
    → parse_optional raw context ≡ ok texts
    → IsConstraint raw texts
unfolding parse_value_constraint
parse_optional-IsConstraint none context texts h = sym (ok-injective h)
parse_optional-IsConstraint (some Value.null) context texts h = sym (ok-injective h)
parse_optional-IsConstraint (some (Value.bool b)) context texts h = cc
parse_optional-IsConstraint (some (Value.int n)) context texts h = cc
parse_optional-IsConstraint (some (Value.float f)) context texts h = cc
parse_optional-IsConstraint (some (Value.str text)) context texts h = sym (ok-injective h)
parse_optional-IsConstraint (some (Value.obj _)) context texts h = cc
parse_optional-IsConstraint (some (Value.arr no_values)) context texts h = cc
parse_optional-IsConstraint (some (Value.arr (value item items))) context texts h =
    let listed = texts_of-IsList context 0 (value item items) texts h in
    (IsList-nonempty item items texts listed, listed)

build_matcher_spec-IsSpecOf :
    (m : RuleAuthMatcher)
    → IsValidMatcher m
    → (spec : AuthMatcherSpec) × (build_matcher_spec m ≡ ok spec) × IsSpecOf m spec
unfolding build_matcher_spec
build_matcher_spec-IsSpecOf m valid =
    let value = valid.value.1 "auth.match.value" in
    let username = valid.username.1 "auth.match.username" in
    let password = valid.password.1 "auth.match.password" in
    (
      record {
        kind = trim_space m.kind;
        name = trim_space m.name;
        value = valid.value.0;
        username = valid.username.0;
        password = valid.password.0;
      },
      rw (value, username, password) refl,
      record {
        kind = refl;
        name = refl;
        value = parse_optional-IsConstraint m.value "auth.match.value" valid.value.0 value;
        username =
            parse_optional-IsConstraint m.username "auth.match.username" valid.username.0 username;
        password =
            parse_optional-IsConstraint m.password "auth.match.password" valid.password.0 password;
      },
    )

build_matcher_specs-AreSpecsOf :
    (ms : List RuleAuthMatcher) → All IsValidMatcher ms → AreSpecsOf ms (build_matcher_specs ms)
unfolding build_matcher_specs keep_matcher
build_matcher_specs-AreSpecsOf [] h = tt
build_matcher_specs-AreSpecsOf (m ∷ ms) h =
    let first = build_matcher_spec-IsSpecOf m h.0 in
    rw first.1 (first.2, build_matcher_specs-AreSpecsOf ms h.1)

-- The directives of a rule with their specifications, each matcher with its own.
abbrev pub AreKept : List RuleAuthDirective → List AuthDirectiveSpec → Type 0
AreKept [] [] = Unit
AreKept [] (spec ∷ specs) = ⊥
AreKept (d ∷ ds) [] = ⊥
AreKept (d ∷ ds) (spec ∷ specs) = AreSpecsOf d.match spec.match × AreKept ds specs

build_rule_auth_spec-AreKept :
    (ds : List RuleAuthDirective) → All IsValidDirective ds → AreKept ds (build_rule_auth_spec ds)
unfolding build_rule_auth_spec
build_rule_auth_spec-AreKept [] h = tt
build_rule_auth_spec-AreKept (d ∷ ds) h =
    (build_matcher_specs-AreSpecsOf d.match h.0.matchers, build_rule_auth_spec-AreKept ds h.1)

-- The directives of a rule are all kept.
abbrev pub IsKept : RuleConfig → Type 0
IsKept rule = AreKept rule.auth (build_rule_auth_spec rule.auth)

-- In a configuration that the validation accepts, buildRuleAuthSpec keeps every directive of every rule
-- with every matcher, in their order: its kind and name, trimmed, and as its constraints exactly the
-- texts that the configuration gives, one or an array of them.
pub validate-IsKept :
    (config valid : Config) → validate config ≡ ok valid → All (λ entry. IsKept entry.1) valid.rules
validate-IsKept config valid h =
    All-map (λ entry. IsValidRule entry.1) (λ entry. IsKept entry.1) valid.rules
      (λ entry rule. build_rule_auth_spec-AreKept entry.1.auth rule.auth)
      (validate-IsValidRule config valid h)
