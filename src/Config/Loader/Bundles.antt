-- ===== src/Config/Loader/Bundles.antt =====
-- What the finished bundle holds: the validation of the rules and the pruning of the endpoints.
use pass_ctrl.Prelude.{
  ◌≡◌, ◌≢◌, refl, ◌∙◌, String, Bool, true, false, ◌||◌, ◌&&◌, Option, none, some, List, [], ◌∷◌,
  arith, eq_iff, ◌==◌, ◌⊎◌, ◌↔◌, if◌then◌else◌, is_some, is_empty, Bool-cases, Option-cases, inl,
  inr, any, All,
}
use pass_ctrl.Assoc.{Assoc, get, has}
use pass_ctrl.Assoc.Laws.{get-remove}
use pass_ctrl.Assoc.Distinct.{IsFree, HasDistinctKeys, put-HasDistinctKeys, remove-HasDistinctKeys}
use pass_ctrl.Config.Types.{EndpointConfig, EndpointRuleReference, RuleConfig}
use pass_ctrl.Config.Loader.{
  Table, quarantine, add, add_each, append_unique, RuleDocument, RuleAggregator,
  new_rule_aggregator, add_document, add_documents, quarantine_each, Compiler, validate_rule,
  rule_reason, missing_rules, missing_reason, endpoint_reason, validate_rule_expressions,
  prune_invalid_endpoints, bundle, build_rule_bundle,
}
use pass_ctrl.Config.Loader.Duplicates.{Holds, rules_named, endpoints_named, add_documents-Holds}

module _ {V : Type 0} where
  -- Some entry under the name has a reason to leave.
  abbrev rejected : (V → Option String) → String → Assoc V → Bool
  rejected check n defs = any (λ d. d.0 == n && is_some (check d.1)) defs

  live-quarantine_each :
      (kind : String) (check : V → Option String) (defs : Assoc V) (t : Table V) (n : String)
      → get n (quarantine_each kind check defs t).live
        ≡ (if rejected check n defs then none else get n t.live)
  unfolding quarantine_each quarantine
  live-quarantine_each kind check [] t n = refl
  live-quarantine_each kind check ((name, cfg) ∷ defs) t n = elim (Option-cases (check cfg)) [
    | inl e ↦ rw (e, quarantine_each) (ground (arith, live-quarantine_each kind check defs t n))
    | inr (reason, e) ↦
        rw (e, quarantine_each)
          (live-quarantine_each kind check defs _ n ∙ (ground (arith, get-remove name n t.live)))
  ]

  not-rejected_of_IsFree :
      (check : V → Option String) (n : String) (defs : Assoc V)
      → IsFree n defs
      → rejected check n defs ≡ false
  not-rejected_of_IsFree check n [] h = refl
  not-rejected_of_IsFree check n ((name, cfg) ∷ defs) h =
      ground (arith, eq_iff name n, not-rejected_of_IsFree check n defs h.1)

  abbrev kept : (V → Option String) → Option V → Option V
  kept check none = none
  kept check (some cfg) = if is_some (check cfg) then none else some cfg

  kept-get :
      (check : V → Option String) (n : String) (defs : Assoc V)
      → HasDistinctKeys defs
      → (if rejected check n defs then none else get n defs) ≡ kept check (get n defs)
  unfolding get
  kept-get check n [] h = refl
  kept-get check n ((name, cfg) ∷ defs) h = elim (Bool-cases (name == n)) [
    | inl e ↦
        let same = (eq_iff name n).0 e in
        ground (arith, not-rejected_of_IsFree check n defs (rw (← same) h.0))
    | inr e ↦ ground (arith, kept-get check n defs h.1)
  ]

  -- What is left of a table after the loop.
  get-quarantine_each :
      (kind : String) (check : V → Option String) (t : Table V) (n : String)
      → HasDistinctKeys t.live
      → get n (quarantine_each kind check t.live t).live ≡ kept check (get n t.live)
  get-quarantine_each kind check t n h =
      live-quarantine_each kind check t.live t n ∙ kept-get check n t.live h

  add-HasDistinctKeys :
      (kind name : String) (cfg : V) (source : String) (t : Table V)
      → HasDistinctKeys t.live
      → HasDistinctKeys (add kind name cfg source t).live
  unfolding add quarantine
  add-HasDistinctKeys kind name cfg source t h = elim (Option-cases (get name t.skips)) [
    | inr (skip, e) ↦ rw (e, add) h
    | inl e ↦ elim (Option-cases (get name t.sources)) [
      | inr (previous, f) ↦ rw (e, f, add) (remove-HasDistinctKeys name t.live h)
      | inl f ↦ rw (e, f, add) (put-HasDistinctKeys name cfg t.live h)
    ]
  ]

  add_each-HasDistinctKeys :
      (kind : String) (defs : Assoc V) (source : String) (t : Table V)
      → HasDistinctKeys t.live
      → HasDistinctKeys (add_each kind defs source t).live
  unfolding add_each
  add_each-HasDistinctKeys kind [] source t h = h
  add_each-HasDistinctKeys kind ((name, cfg) ∷ defs) source t h =
      add_each-HasDistinctKeys kind defs source (add kind name cfg source t)
        (add-HasDistinctKeys kind name cfg source t h)

add_documents-HasDistinctKeys :
    (docs : List (RuleDocument × String)) (a : RuleAggregator)
    → HasDistinctKeys a.rules.live
    → HasDistinctKeys a.endpoints.live
    → HasDistinctKeys (add_documents docs a).rules.live
      × HasDistinctKeys (add_documents docs a).endpoints.live
unfolding add_documents add_document
add_documents-HasDistinctKeys [] a h k = (h, k)
add_documents-HasDistinctKeys ((doc, path) ∷ docs) a h k =
    add_documents-HasDistinctKeys docs (add_document doc path a)
      (add_each-HasDistinctKeys "rule" doc.rules path a.rules h)
      (add_each-HasDistinctKeys "endpoint" doc.endpoints path a.endpoints k)

-- The only definition, if there is one.
abbrev pub sole {ℓ} : {V : Type ℓ} → List V → Option V
sole [] = none
sole (v ∷ []) = some v
sole (v ∷ w ∷ vs) = none

get-Holds :
    {V : Type 0} (t : Table V) (n : String) (vs : List V) → Holds t n vs → get n t.live ≡ sole vs
get-Holds t n [] h = h.0
get-Holds t n (v ∷ []) h = h.0
get-Holds t n (v ∷ w ∷ vs) h = h.0

-- All that is loaded: the inline definitions come first.
abbrev pub all_documents :
    RuleDocument → List (RuleDocument × String) → List (RuleDocument × String)
all_documents inline docs = (inline, "inline-config") ∷ docs

abbrev loaded : RuleDocument → List (RuleDocument × String) → RuleAggregator
loaded inline docs = add_documents docs (
    if is_empty inline.endpoints && is_empty inline.rules
    then new_rule_aggregator
    else add_document inline "inline-config" new_rule_aggregator)

empty_of {ℓ} : {A : Type ℓ} (xs : List A) → is_empty xs ≡ true → xs ≡ []
empty_of [] h = refl
empty_of (x ∷ xs) h = cc

loaded-Holds :
    (inline : RuleDocument) (docs : List (RuleDocument × String)) (n : String)
    → Holds (loaded inline docs).rules n (rules_named n (all_documents inline docs))
      × Holds (loaded inline docs).endpoints n (endpoints_named n (all_documents inline docs))
unfolding add_documents
loaded-Holds inline docs n =
    elim (Bool-cases (is_empty inline.endpoints && is_empty inline.rules)) [
      | inl e ↦ rw e (
          rw (empty_of inline.rules (ground arith), empty_of inline.endpoints (ground arith))
            (add_documents-Holds docs n))
      | inr e ↦ rw e (add_documents-Holds (all_documents inline docs) n)
    ]

loaded-HasDistinctKeys :
    (inline : RuleDocument) (docs : List (RuleDocument × String))
    → HasDistinctKeys (loaded inline docs).rules.live
      × HasDistinctKeys (loaded inline docs).endpoints.live
loaded-HasDistinctKeys inline docs =
    elim (Bool-cases (is_empty inline.endpoints && is_empty inline.rules)) [
      | inl e ↦ rw e (add_documents-HasDistinctKeys docs new_rule_aggregator tt tt)
      | inr e ↦ rw e (
          unfold add_documents in
          add_documents-HasDistinctKeys (all_documents inline docs) new_rule_aggregator tt tt)
    ]

kept-eq-some_iff :
    {V : Type 0} (check : V → Option String) (o : Option V) (v : V)
    → (kept check o ≡ some v) ↔ ((o ≡ some v) × (check v ≡ none))
kept-eq-some_iff check none v = (λ h. cc, λ h. h.0)
kept-eq-some_iff check (some w) v = elim (Option-cases (check w)) [
  | inl e ↦ rw e (λ h. (h, cc), λ h. h.0)
  | inr (reason, e) ↦ rw e (λ h. cc, λ h. cc)
]

append_unique-ne-nil :
    (list : List String) (value : String)
    → value == "" ≡ false
    → is_empty (append_unique list value) ≡ false
unfolding append_unique
append_unique-ne-nil [] value h = rw h
append_unique-ne-nil (x ∷ list) value h = ground arith

-- The rule that a reference names is there; a reference without a name is passed over.
abbrev pub IsResolved : Assoc RuleConfig → EndpointRuleReference → Type 0
IsResolved rules ref = (ref.name ≡ "") ⊎ (has ref.name rules ≡ true)

missing_rules_nonempty :
    (rules : Assoc RuleConfig) (refs : List EndpointRuleReference) (missing : List String)
    → is_empty missing ≡ false
    → is_empty (missing_rules rules refs missing) ≡ false
unfolding missing_rules
missing_rules_nonempty rules [] missing h = h
missing_rules_nonempty rules (ref ∷ refs) missing h =
    missing_rules_nonempty rules refs _ (ground (arith, append_unique-ne-nil missing ref.name))

ne_nil_of_is_empty {ℓ} : {A : Type ℓ} (xs : List A) → is_empty xs ≡ false → xs ≢ []
ne_nil_of_is_empty [] h e = cc
ne_nil_of_is_empty (x ∷ xs) h e = cc

-- The set of missing rules after one more reference.
abbrev with_ref : Assoc RuleConfig → EndpointRuleReference → List String
with_ref rules ref =
    if ref.name == "" then [] else if has ref.name rules then [] else append_unique [] ref.name

missing_rules_iff :
    (rules : Assoc RuleConfig) (refs : List EndpointRuleReference)
    → (missing_rules rules refs [] ≡ []) ↔ All (IsResolved rules) refs
unfolding missing_rules
missing_rules_iff rules [] = (λ h. tt, λ h. refl)
missing_rules_iff rules (ref ∷ refs) = elim (Bool-cases (ref.name == "" || has ref.name rules)) [
  | inl e ↦
      let same : with_ref rules ref ≡ [] = ground arith in
      let here : IsResolved rules ref = ground (arith, eq_iff ref.name "") in
      rw same
        (λ h. (here, (missing_rules_iff rules refs).0 h), λ h. (missing_rules_iff rules refs).1 h.1)
  | inr e ↦
      let left : is_empty (with_ref rules ref) ≡ false =
        ground (arith, append_unique-ne-nil [] ref.name) in
      let more = missing_rules_nonempty rules refs (with_ref rules ref) left in
      (λ h. absurd (ne_nil_of_is_empty _ more h), λ h. ground (arith, eq_iff ref.name ""))
]

missing_reason_iff : (missing : List String) → (missing_reason missing ≡ none) ↔ (missing ≡ [])
unfolding missing_reason
missing_reason_iff [] = (λ h. refl, λ h. refl)
missing_reason_iff (x ∷ missing) = (λ h. cc, λ h. cc)

rule_reason_iff :
    (compile : Compiler) (cfg : RuleConfig)
    → (rule_reason compile cfg ≡ none) ↔ (validate_rule compile cfg ≡ none)
unfolding rule_reason
rule_reason_iff compile cfg = ground arith

endpoint_reason_iff :
    (rules : Assoc RuleConfig) (cfg : EndpointConfig)
    → (endpoint_reason rules cfg ≡ none) ↔ All (IsResolved rules) cfg.rules
unfolding endpoint_reason
endpoint_reason_iff rules cfg =
    let reason = missing_reason_iff (missing_rules rules cfg.rules []) in
    let refs = missing_rules_iff rules cfg.rules in
    (λ h. refs.0 (reason.0 h), λ h. reason.1 (refs.1 h))

-- A definition that the loop keeps, for a table that holds what the documents give.
bundled_iff :
    {V : Type 0} (kind : String) (check : V → Option String) (t : Table V) (n : String)
    (defs : List V) (cfg : V) {P : Type 0}
    → HasDistinctKeys t.live
    → Holds t n defs
    → (check cfg ≡ none) ↔ P
    → (get n (quarantine_each kind check t.live t).live ≡ some cfg) ↔ ((sole defs ≡ some cfg) × P)
bundled_iff kind check t n defs cfg distinct holds iff =
    let kept_iff = kept-eq-some_iff check (sole defs) cfg in
    rw (get-quarantine_each kind check t n distinct) (
      rw (get-Holds t n defs holds)
        (λ h. ((kept_iff.0 h).0, iff.0 (kept_iff.0 h).1), λ h. kept_iff.1 (h.0, iff.1 h.1)))

-- Whatever the inline definitions and the documents, a rule is in the bundle exactly when its name is
-- defined once in all of them and every one of its conditions compiles, and then with that definition.
pub rules-build_rule_bundle_iff :
    (compile : Compiler) (inline : RuleDocument) (docs : List (RuleDocument × String)) (n : String)
    (cfg : RuleConfig)
    → (get n (build_rule_bundle compile inline docs).rules ≡ some cfg) ↔ (
        (sole (rules_named n (all_documents inline docs)) ≡ some cfg)
        × (validate_rule compile cfg ≡ none))
unfolding build_rule_bundle bundle prune_invalid_endpoints validate_rule_expressions
rules-build_rule_bundle_iff compile inline docs n cfg =
    bundled_iff "rule" (rule_reason compile) (loaded inline docs).rules n
      (rules_named n (all_documents inline docs)) cfg (loaded-HasDistinctKeys inline docs).0
      (loaded-Holds inline docs n).0 (rule_reason_iff compile cfg)

-- An endpoint is in the bundle exactly when its name is defined once and each rule that it refers to
-- is in the bundle too, and then with that definition.
pub endpoints-build_rule_bundle_iff :
    (compile : Compiler) (inline : RuleDocument) (docs : List (RuleDocument × String)) (n : String)
    (cfg : EndpointConfig)
    → (get n (build_rule_bundle compile inline docs).endpoints ≡ some cfg) ↔ (
        (sole (endpoints_named n (all_documents inline docs)) ≡ some cfg)
        × All (IsResolved (build_rule_bundle compile inline docs).rules) cfg.rules)
unfolding build_rule_bundle bundle prune_invalid_endpoints validate_rule_expressions
endpoints-build_rule_bundle_iff compile inline docs n cfg =
    let rules = (validate_rule_expressions compile (loaded inline docs)).rules.live in
    bundled_iff "endpoint" (endpoint_reason rules) (loaded inline docs).endpoints n
      (endpoints_named n (all_documents inline docs)) cfg (loaded-HasDistinctKeys inline docs).1
      (loaded-Holds inline docs n).1 (endpoint_reason_iff rules cfg)
