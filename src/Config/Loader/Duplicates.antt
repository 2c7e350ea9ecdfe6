-- ===== src/Config/Loader/Duplicates.antt =====
-- Which definitions are live after documents have been added: those whose name was defined once.
use pass_ctrl.Prelude.{
  ◌≡◌, refl, String, true, false, not, ◌||◌, none, some, List, [], ◌∷◌, ◌++◌, arith, eq_iff, ◌==◌,
  if◌then◌else◌, is_some, Bool-cases, Option-cases, inl, inr,
}
use mathlib.Core.List.{append-nil, append_assoc}
use pass_ctrl.Assoc.{Assoc, get}
use pass_ctrl.Assoc.Laws.{get-put, get-remove}
use pass_ctrl.Config.Types.{DefinitionSkip, EndpointConfig, RuleConfig}
use pass_ctrl.Config.Loader.{
  Table, record_skip, quarantine, add, add_each, RuleDocument, RuleAggregator, new_rule_aggregator,
  add_document, add_documents,
}

is_some-record_skip :
    (kind name reason n : String) (sources : List String) (skips : Assoc DefinitionSkip)
    → is_some (get n (record_skip kind name reason sources skips))
      ≡ (name == n || is_some (get n skips))
unfolding record_skip
is_some-record_skip kind name reason n sources skips = elim (Option-cases (get name skips)) [
  | inl e ↦ rw (e, record_skip) (rw get-put (ground arith))
  | inr (skip, e) ↦ rw (e, record_skip) (rw get-put (ground arith))
]

module _ {V : Type 0} where
  -- A table holds `defs` under a name: nothing, one definition that is live, or several, of which
  -- none is live and that are recorded as skipped.
  abbrev pub Holds : Table V → String → List V → Type 0
  Holds t n [] =
      (get n t.live ≡ none)
      × (is_some (get n t.sources) ≡ false)
      × (is_some (get n t.skips) ≡ false)
  Holds t n (v ∷ []) =
      (get n t.live ≡ some v)
      × (is_some (get n t.sources) ≡ true)
      × (is_some (get n t.skips) ≡ false)
  Holds t n (v ∷ w ∷ vs) =
      (get n t.live ≡ none) × (is_some (get n t.sources) ≡ false) × (is_some (get n t.skips) ≡ true)

  module _ (kind name : String) (cfg : V) (source : String) (t : Table V) (n : String) where
    live-add : get n (add kind name cfg source t).live ≡ (
        if name == n
        then (if is_some (get name t.skips)
            then get n t.live
            else if is_some (get name t.sources)
            then none
            else some cfg)
        else get n t.live)
    unfolding quarantine add
    live-add = elim (Option-cases (get name t.skips)) [
      | inr (skip, e) ↦ rw (e, add) (ground arith)
      | inl e ↦ elim (Option-cases (get name t.sources)) [
        | inr (previous, f) ↦ rw (e, f, add) (rw get-remove (ground arith))
        | inl f ↦ rw (e, f, add) (rw get-put (ground arith))
      ]
    ]

    sources-add : is_some (get n (add kind name cfg source t).sources) ≡ (
        if name == n
        then (if is_some (get name t.skips)
            then is_some (get n t.sources)
            else not (is_some (get name t.sources)))
        else is_some (get n t.sources))
    unfolding quarantine add
    sources-add = elim (Option-cases (get name t.skips)) [
      | inr (skip, e) ↦ rw (e, add) (ground arith)
      | inl e ↦ elim (Option-cases (get name t.sources)) [
        | inr (previous, f) ↦ rw (e, f, add) (rw get-remove (ground arith))
        | inl f ↦ rw (e, f, add) (rw get-put (ground arith))
      ]
    ]

    skips-add : is_some (get n (add kind name cfg source t).skips) ≡ (
        if name == n
        then is_some (get name t.skips) || is_some (get name t.sources)
        else is_some (get n t.skips))
    unfolding quarantine add
    skips-add = elim (Option-cases (get name t.skips)) [
      | inr (skip, e) ↦ rw (e, add) (rw get-put (ground arith))
      | inl e ↦ elim (Option-cases (get name t.sources)) [
        | inr (previous, f) ↦ rw (e, f, add) (rw is_some-record_skip (ground arith))
        | inl f ↦ rw (e, f, add) (ground (arith, eq_iff name n))
      ]
    ]

    -- Adding a definition says nothing of the other names.
    Holds-add_other :
        (vs : List V) → name == n ≡ false → Holds t n vs → Holds (add kind name cfg source t) n vs
    Holds-add_other [] ne h = ground (arith, live-add, sources-add, skips-add)
    Holds-add_other (v ∷ []) ne h = ground (arith, live-add, sources-add, skips-add)
    Holds-add_other (v ∷ w ∷ vs) ne h = ground (arith, live-add, sources-add, skips-add)

  Holds-add_same :
      (kind name : String) (cfg : V) (source : String) (t : Table V) (vs : List V)
      → Holds t name vs
      → Holds (add kind name cfg source t) name (vs ++ cfg ∷ [])
  Holds-add_same kind name cfg source t [] h = ground (
    arith,
    live-add kind name cfg source t name,
    sources-add kind name cfg source t name,
    skips-add kind name cfg source t name,
    eq_iff name name,
  )
  Holds-add_same kind name cfg source t (v ∷ []) h = ground (
    arith,
    live-add kind name cfg source t name,
    sources-add kind name cfg source t name,
    skips-add kind name cfg source t name,
    eq_iff name name,
  )
  Holds-add_same kind name cfg source t (v ∷ w ∷ vs) h = ground (
    arith,
    live-add kind name cfg source t name,
    sources-add kind name cfg source t name,
    skips-add kind name cfg source t name,
    eq_iff name name,
  )

  -- What a map gives for a name, as a list.
  abbrev pub named : String → Assoc V → List V
  named n [] = []
  named n ((name, cfg) ∷ defs) = if name == n then cfg ∷ named n defs else named n defs

  Holds-add_each :
      (kind : String) (defs : Assoc V) (source : String) (t : Table V) (n : String) (vs : List V)
      → Holds t n vs
      → Holds (add_each kind defs source t) n (vs ++ named n defs)
  unfolding add_each
  Holds-add_each kind [] source t n vs h = rw append-nil h
  Holds-add_each kind ((name, cfg) ∷ defs) source t n vs h = elim (Bool-cases (name == n)) [
    | inl e ↦ rw e (
        rw (← append_assoc vs (cfg ∷ []) (named n defs)) (
          Holds-add_each kind defs source (add kind name cfg source t) n (vs ++ cfg ∷ []) (
            let same = (eq_iff name n).0 e in
            rw (← same) (Holds-add_same kind name cfg source t vs (rw same h)))))
    | inr e ↦ rw e (
        Holds-add_each kind defs source (add kind name cfg source t) n vs
          (Holds-add_other kind name cfg source t n vs e h))
  ]

-- The definitions that the documents give for a name, in the order in which they are read.
abbrev pub rules_named : String → List (RuleDocument × String) → List RuleConfig
rules_named n [] = []
rules_named n ((doc, path) ∷ docs) = named n doc.rules ++ rules_named n docs

abbrev pub endpoints_named : String → List (RuleDocument × String) → List EndpointConfig
endpoints_named n [] = []
endpoints_named n ((doc, path) ∷ docs) = named n doc.endpoints ++ endpoints_named n docs

Holds-add_documents :
    (docs : List (RuleDocument × String)) (a : RuleAggregator) (n : String)
    (rules : List RuleConfig) (endpoints : List EndpointConfig)
    → Holds a.rules n rules
    → Holds a.endpoints n endpoints
    → Holds (add_documents docs a).rules n (rules ++ rules_named n docs)
      × Holds (add_documents docs a).endpoints n (endpoints ++ endpoints_named n docs)
unfolding add_documents add_document
Holds-add_documents [] a n rules endpoints h k = (rw append-nil h, rw append-nil k)
Holds-add_documents ((doc, path) ∷ docs) a n rules endpoints h k =
    let (p, q) =
      Holds-add_documents docs (add_document doc path a) n (rules ++ named n doc.rules)
        (endpoints ++ named n doc.endpoints)
        (Holds-add_each "rule" doc.rules path a.rules n rules h)
        (Holds-add_each "endpoint" doc.endpoints path a.endpoints n endpoints k) in
    (
      rw (← append_assoc rules (named n doc.rules) (rules_named n docs)) p,
      rw (← append_assoc endpoints (named n doc.endpoints) (endpoints_named n docs)) q,
    )

-- Whatever documents are added to a new aggregator, a rule or endpoint is live exactly when its name
-- is defined once in all of them, and then with that definition; a name that is defined more often is
-- recorded as skipped, and a name that is never defined is neither live nor skipped.
pub add_documents-Holds :
    (docs : List (RuleDocument × String)) (n : String)
    → Holds (add_documents docs new_rule_aggregator).rules n (rules_named n docs)
      × Holds (add_documents docs new_rule_aggregator).endpoints n (endpoints_named n docs)
unfolding get
add_documents-Holds docs n =
    Holds-add_documents docs new_rule_aggregator n [] [] (refl, refl, refl) (refl, refl, refl)
