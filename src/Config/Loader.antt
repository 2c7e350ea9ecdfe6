-- ===== src/Config/Loader.antt =====
-- internal/config/rules_loader.go: the aggregator that merges the definitions of all documents. The
-- maps of endpoints and of rules are treated alike, so that one table type serves both. A Go map is
-- visited in the order of the association list that stands for it.
pub mod Duplicates
pub mod Bundles
use pass_ctrl.Prelude.{
  ℕ, suc, ◌+◌, String, Bool, true, false, not, ◌&&◌, ◌||◌, Option, none, some, List, [], ◌∷◌, ◌++◌,
  any, filter, if◌then◌else◌, ◌==◌, is_some, Result, ok, err, ◌>>=◌, ◌>>◌, is_empty, map,
}
use pass_ctrl.Text.{◌+s◌, trim_space, join, show_nat, sort_strings, string_leb}
use pass_ctrl.Assoc.{Assoc, get, put, remove, has, keys}
use pass_ctrl.Config.Types.{DefinitionSkip, EndpointConfig, EndpointRuleReference, RuleConfig}

-- appendUnique
unfoldable pub append_unique : List String → String → List String
append_unique list value =
    if value == ""
    then list
    else if any (λ existing. existing == value) list
    then list
    else list ++ value ∷ []

append_all_unique : List String → List String → List String
append_all_unique list [] = list
append_all_unique list (source ∷ sources) = append_all_unique (append_unique list source) sources

-- The three maps that the aggregator keeps for endpoints, and again for rules.
pub record Table (V : Type 0) : Type 0 where
  pub live : Assoc V
  pub sources : Assoc String
  pub skips : Assoc DefinitionSkip

abbrev pub empty_table : {V : Type 0} → Table V
empty_table = record { live = []; sources = []; skips = [] }

extend_skip : String → List String → DefinitionSkip → DefinitionSkip
unfolding append_all_unique
extend_skip reason sources skip = record skip {
  reason = if skip.reason == "" then reason else skip.reason;
  sources = append_all_unique skip.sources sources;
}

abbrev new_skip : String → String → String → DefinitionSkip
new_skip kind name reason = record { kind = kind; name = name; reason = reason; sources = [] }

-- recordEndpointSkip, recordRuleSkip
unfoldable pub record_skip :
    String → String → String → List String → Assoc DefinitionSkip → Assoc DefinitionSkip
unfolding extend_skip append_all_unique
record_skip kind name reason sources skips = elim (get name skips) [
  | some skip ↦ put name (extend_skip reason sources skip) skips
  | none ↦
      (let skip = new_skip kind name reason in
        put name (record skip { sources = append_all_unique [] sources }) skips)
]

module _ {V : Type 0} where
  -- A name leaves the table for a reason that is kept.
  unfoldable pub quarantine : String → String → String → List String → Table V → Table V
  quarantine kind name reason sources t = record {
    live = remove name t.live;
    sources = remove name t.sources;
    skips = record_skip kind name reason sources t.skips;
  }

  -- addEndpoint, addRule
  unfoldable pub add : String → String → V → String → Table V → Table V
  add kind name cfg source t = elim (get name t.skips) [
    | some existing ↦ record t {
      skips =
          put name (record existing { sources = append_unique existing.sources source }) t.skips;
    }
    | none ↦ elim (get name t.sources) [
      | some previous ↦ quarantine kind name "duplicate definition" (previous ∷ source ∷ []) t
      | none ↦ record t { live = put name cfg t.live; sources = put name source t.sources }
    ]
  ]

  unfoldable pub add_each : String → Assoc V → String → Table V → Table V
  unfolding add
  add_each kind [] source t = t
  add_each kind ((name, cfg) ∷ defs) source t =
      add_each kind defs source (add kind name cfg source t)

pub record RuleDocument : Type 0 where
  pub endpoints : Assoc EndpointConfig
  pub rules : Assoc RuleConfig

pub record RuleAggregator : Type 0 where
  pub endpoints : Table EndpointConfig
  pub rules : Table RuleConfig
  pub sources : List String

-- newRuleAggregator
abbrev pub new_rule_aggregator : RuleAggregator
new_rule_aggregator = record { endpoints = empty_table; rules = empty_table; sources = [] }

-- addDocument; the set of sources is a list without repetition.
unfoldable pub add_document : RuleDocument → String → RuleAggregator → RuleAggregator
add_document doc source a = record {
  endpoints = add_each "endpoint" doc.endpoints source a.endpoints;
  rules = add_each "rule" doc.rules source a.rules;
  sources = append_unique a.sources source;
}

-- The CEL compiler, which is not part of the program: the error for an expression that it refuses.
abbrev pub Compiler : Type 0
Compiler = String → Option String

-- validateConditionList, from a position of the list on
unfoldable pub validate_condition_list : Compiler → String → ℕ → List String → Option String
validate_condition_list compile name idx [] = none
validate_condition_list compile name idx (expression ∷ expressions) =
    let rest = validate_condition_list compile name (suc idx) expressions in
    if trim_space expression == "" then rest else elim (compile (trim_space expression)) [
      | some e ↦ some ("conditions." +s name +s "[" +s show_nat idx +s "]: " +s e)
      | none ↦ rest
    ]

unfoldable pub first_error : Option String → Option String → Option String
first_error (some e) later = some e
first_error none later = later

-- validateRuleExpressions, of one rule
unfoldable pub validate_rule : Compiler → RuleConfig → Option String
unfolding first_error
validate_rule compile cfg =
    first_error (validate_condition_list compile "pass" 0 cfg.conditions.pass) (
      first_error (validate_condition_list compile "fail" 0 cfg.conditions.fail)
        (validate_condition_list compile "error" 0 cfg.conditions.error))

source_of : Option String → String
source_of none = ""
source_of (some source) = source

module _ {V : Type 0} where
  -- A loop over the live definitions: one for which `check` gives a reason leaves the table.
  unfoldable pub quarantine_each : String → (V → Option String) → Assoc V → Table V → Table V
  unfolding source_of
  quarantine_each kind check [] t = t
  quarantine_each kind check ((name, cfg) ∷ defs) t = elim (check cfg) [
    | none ↦ quarantine_each kind check defs t
    | some reason ↦
        quarantine_each kind check defs
          (quarantine kind name reason (source_of (get name t.sources) ∷ []) t)
  ]

-- The reason for which a rule that does not compile is skipped.
rule_reason : Compiler → RuleConfig → Option String
rule_reason compile cfg = elim (validate_rule compile cfg) [
  | none ↦ none
  | some e ↦ some ("invalid rule expressions: " +s e)
]

-- validateRuleExpressions, of the aggregator
unfoldable pub validate_rule_expressions : Compiler → RuleAggregator → RuleAggregator
unfolding rule_reason
validate_rule_expressions compile a = record a {
  rules = quarantine_each "rule" (rule_reason compile) a.rules.live a.rules;
}

-- The set of the rules that an endpoint names and that are not there.
unfoldable pub missing_rules :
    Assoc RuleConfig → List EndpointRuleReference → List String → List String
missing_rules rules [] missing = missing
missing_rules rules (ref ∷ refs) missing = missing_rules rules refs (
    if ref.name == ""
    then missing
    else if has ref.name rules
    then missing
    else append_unique missing ref.name)

missing_reason : List String → Option String
missing_reason [] = none
missing_reason (name ∷ names) =
    some ("missing rule dependencies: " +s join (sort_strings (name ∷ names)) ", ")

endpoint_reason : Assoc RuleConfig → EndpointConfig → Option String
unfolding missing_reason
endpoint_reason rules cfg = missing_reason (missing_rules rules cfg.rules [])

-- pruneInvalidEndpoints
unfoldable pub prune_invalid_endpoints : RuleAggregator → RuleAggregator
unfolding endpoint_reason
prune_invalid_endpoints a = record a {
  endpoints =
      quarantine_each "endpoint" (endpoint_reason a.rules.live) a.endpoints.live a.endpoints;
}

pub record RuleBundle : Type 0 where
  pub endpoints : Assoc EndpointConfig
  pub rules : Assoc RuleConfig
  pub sources : List String
  pub skipped : List DefinitionSkip

abbrev values {ℓ} : {V : Type ℓ} → Assoc V → List V
values [] = []
values ((k, v) ∷ m) = v ∷ values m

sort_sources : DefinitionSkip → DefinitionSkip
sort_sources skip = record skip { sources = sort_strings skip.sources }

-- The order of the skipped definitions: by kind, and by name where the kinds are the same.
skip_leb : DefinitionSkip → DefinitionSkip → Bool
skip_leb a b = if a.kind == b.kind then string_leb a.name b.name else string_leb a.kind b.kind

insert_skip : DefinitionSkip → List DefinitionSkip → List DefinitionSkip
insert_skip x [] = x ∷ []
insert_skip x (y ∷ ys) = if skip_leb x y then x ∷ y ∷ ys else y ∷ insert_skip x ys

sort_skips : List DefinitionSkip → List DefinitionSkip
sort_skips [] = []
sort_skips (x ∷ xs) = insert_skip x (sort_skips xs)

-- bundle
unfoldable pub bundle : RuleAggregator → RuleBundle
unfolding sort_sources skip_leb insert_skip sort_skips
bundle a =
    let pruned = prune_invalid_endpoints a in
    record {
      endpoints = pruned.endpoints.live;
      rules = pruned.rules.live;
      sources = sort_strings (filter (λ source. not (source == "")) pruned.sources);
      skipped =
          sort_skips
            (map sort_sources (values pruned.endpoints.skips ++ values pruned.rules.skips));
    }

unfoldable pub add_documents : List (RuleDocument × String) → RuleAggregator → RuleAggregator
add_documents [] a = a
add_documents ((doc, path) ∷ docs) a = add_documents docs (add_document doc path a)

-- buildRuleBundle, given the inline definitions and the documents that were read from the rule files,
-- with their paths
unfoldable pub build_rule_bundle :
    Compiler → RuleDocument → List (RuleDocument × String) → RuleBundle
unfolding add_documents
build_rule_bundle compile inline docs =
    let start =
      if is_empty inline.endpoints && is_empty inline.rules
      then new_rule_aggregator
      else add_document inline "inline-config" new_rule_aggregator in
    bundle (validate_rule_expressions compile (add_documents docs start))
