-- ===== src/Runtime/Variables/Exported.antt =====
-- What finishRule exports.
use pass_ctrl.Prelude.{
  ◌≡◌, ◌⊎◌, refl, sym, ◌∙◌, ap, String, Bool, true, false, ◌==◌, ◌||◌, if◌then◌else◌, Option, none,
  some, List, [], ◌∷◌, ok, err, Result, Result-cases, ok-injective, Bool-cases, Option-cases, inl,
  inr, is_empty, is_some, any, arith, eq_iff,
}
use pass_ctrl.Text.{sort_strings, insert_sorted}
use pass_ctrl.Assoc.{Assoc, get, put, put_all, keys}
use pass_ctrl.Assoc.Laws.{get-put}
use pass_ctrl.Value.{Value}
use pass_ctrl.Rulechain.Types.{Definition, ResponseDefinition}
use pass_ctrl.Pipeline.State.{State}
use pass_ctrl.Runtime.Variables.{
  HybridEvaluator, RuleContext, expression_of, rule_context, evaluate_exports,
  evaluate_exported_variables, select_rule_response, set_outcome, finish_rule,
}

any-insert_sorted :
    (f : String → Bool) (k : String) (ks : List String)
    → any f (insert_sorted k ks) ≡ (f k || any f ks)
unfolding insert_sorted
any-insert_sorted f k [] = refl
any-insert_sorted f k (j ∷ ks) = ground (arith, any-insert_sorted f k ks)

any-sort_strings : (f : String → Bool) (ks : List String) → any f (sort_strings ks) ≡ any f ks
unfolding sort_strings
any-sort_strings f [] = refl
any-sort_strings f (k ∷ ks) =
    ground (arith, any-insert_sorted f k (sort_strings ks), any-sort_strings f ks)

any-keys : (n : String) (m : Assoc String) → any (λ k. k == n) (keys m) ≡ is_some (get n m)
unfolding get
any-keys n [] = refl
any-keys n ((k, text) ∷ m) = ground (arith, any-keys n m)

listed :
    (n : String) (m : Assoc String) → any (λ k. k == n) (sort_strings (keys m)) ≡ is_some (get n m)
listed n m = any-sort_strings (λ k. k == n) (keys m) ∙ any-keys n m

-- The value of an exported variable: that of its expression, if it has one.
abbrev pub IsValueOf : HybridEvaluator → RuleContext → Option String → Option Value → Type 0
IsValueOf evaluate ctx none got = got ≡ none
IsValueOf evaluate ctx (some text) got = (v : Value) × (evaluate text ctx ≡ ok v) × (got ≡ some v)

-- The expression of some variable cannot be evaluated.
abbrev pub IsFailing : HybridEvaluator → RuleContext → Assoc String → Type 0
IsFailing evaluate ctx m =
    (name text e : String) × (get name m ≡ some text) × (evaluate text ctx ≡ err e)

module _ (evaluate : HybridEvaluator) (ctx : RuleContext) (m : Assoc String) where
  clash : {xs : Bool} (b : Bool) → xs ≡ true → (b || xs) ≡ false → ⊥
  clash b p q = ground arith

  abbrev value_of : String → Result Value
  value_of name = evaluate (expression_of name m) ctx

  evaluate_exports-get :
      (names : List String) (before after : Assoc Value) (n : String)
      → evaluate_exports evaluate ctx m names before ≡ ok after
      → (any (λ k. k == n) names ≡ true
          → (v : Value) × (value_of n ≡ ok v) × (get n after ≡ some v))
        × (any (λ k. k == n) names ≡ false → get n after ≡ get n before)
  unfolding evaluate_exports
  evaluate_exports-get [] before after n = λ h. (λ k. cc, λ k. ap (get n) (sym (ok-injective h)))
  evaluate_exports-get (name ∷ names) before after n = elim (Result-cases (value_of name)) [
    | inl e ↦ rw e.1 (λ h. cc)
    | inr v ↦ rw v.1 (λ h.
        let rest = evaluate_exports-get names (put name v.0 before) after n h in
        elim (Bool-cases (any (λ k. k == n) names)) [
          | inl there ↦ (λ k. rest.0 there, λ k. elim (clash (name == n) there k) [ ])
          | inr absent ↦ elim (Bool-cases (name == n)) [
            | inl same ↦
                let equal = (eq_iff name n).0 same in
                (
                  λ k. (
                    v.0,
                    ap value_of (sym equal) ∙ v.1,
                    rest.1 absent
                        ∙ get-put name n v.0 before
                        ∙ ap (λ b. if b then some v.0 else get n before) same,
                  ),
                  λ k. cc,
                )
            | inr differs ↦ (
              λ k. cc,
              λ k.
                  rest.1 absent
                  ∙ get-put name n v.0 before
                  ∙ ap (λ b. if b then some v.0 else get n before) differs,
            )
          ]
        ])
  ]

  evaluate_exports-fails :
      (names : List String) (before : Assoc Value) (e : String)
      → evaluate_exports evaluate ctx m names before ≡ err e
      → (name f : String) × (any (λ k. k == name) names ≡ true) × (value_of name ≡ err f)
  unfolding evaluate_exports
  evaluate_exports-fails [] before e = λ h. cc
  evaluate_exports-fails (name ∷ names) before e = elim (Result-cases (value_of name)) [
    | inl f ↦ λ h. (name, f.0, (let same = (eq_iff name name).1 refl in ground arith), f.1)
    | inr v ↦ rw v.1 (λ h.
        let rest = evaluate_exports-fails names (put name v.0 before) e h in
        (rest.0, rest.1, (let there = rest.2 in ground arith), rest.3))
  ]

  -- Every variable has its value after all are evaluated.
  evaluate_exports-IsValueOf :
      (exported : Assoc Value)
      → evaluate_exports evaluate ctx m (sort_strings (keys m)) [] ≡ ok exported
      → (n : String) → IsValueOf evaluate ctx (get n m) (get n exported)
  unfolding get
  evaluate_exports-IsValueOf exported h n =
      let known = evaluate_exports-get (sort_strings (keys m)) [] exported n h in
      elim (Option-cases (get n m)) [
        | inl none_here ↦ rw none_here (known.1 (listed n m ∙ ap is_some none_here))
        | inr text ↦
            let there = known.0 (listed n m ∙ ap is_some text.1) in
            rw text.1 (there.0, sym (ap evaluated text.1) ∙ there.1, there.2)
      ]
    where
      evaluated : Option String → Result Value
      evaluated found = evaluate (elim found [ none ↦ "" | some text ↦ text ]) ctx

  evaluate_exports-IsFailing :
      (e : String)
      → evaluate_exports evaluate ctx m (sort_strings (keys m)) [] ≡ err e
      → IsFailing evaluate ctx m
  evaluate_exports-IsFailing e h =
      let failed = evaluate_exports-fails (sort_strings (keys m)) [] e h in
      let there : is_some (get failed.0 m) ≡ true = sym (listed failed.0 m) ∙ failed.2 in
      elim (Option-cases (get failed.0 m)) [
        | inl none_here ↦ (let absent = ap is_some none_here in cc)
        | inr text ↦ (failed.0, text.0, failed.1, text.1, sym (ap evaluated text.1) ∙ failed.3)
      ]
    where
      evaluated : Option String → Result Value
      evaluated found = evaluate (elim found [ none ↦ "" | some text ↦ text ]) ctx

-- Why nothing is exported: there is no response for the outcome, no evaluator, or no variable; or one of
-- the variables cannot be evaluated.
abbrev pub IsUnexported : Option HybridEvaluator → Option ResponseDefinition → State → Type 0
IsUnexported evaluator none s = Unit
IsUnexported none (some resp) s = Unit
IsUnexported (some evaluate) (some resp) s =
    (resp.exported_variables ≡ []) ⊎ IsFailing evaluate (rule_context s) resp.exported_variables

-- The state after the export of these values: they are the rule's, later rules read them under its name,
-- and the response has them, over what it had.
pub record IsExported (evaluate : HybridEvaluator) (rule_name : String) (resp : ResponseDefinition)
    (s after : State) : Type 0 where
  pub exported : Assoc Value
  pub values :
      (n : String)
      → IsValueOf evaluate (rule_context s) (get n resp.exported_variables) (get n exported)
  pub of_rule : after.rule.variables.exported ≡ exported
  pub for_rules : after.variables.rules ≡ put rule_name exported s.variables.rules
  pub of_response : after.response.variables ≡ put_all exported s.response.variables
  pub outcome : after.rule.outcome ≡ s.rule.outcome
  pub reason : after.rule.reason ≡ s.rule.reason

-- All the variables are exported, or none.
abbrev pub Exports :
    Option HybridEvaluator → String → Option ResponseDefinition → State → State → Type 0
Exports evaluator rule_name response s after =
    (IsUnexported evaluator response s × (after ≡ s))
    ⊎ ((evaluate : HybridEvaluator) × (resp : ResponseDefinition) × (evaluator ≡ some evaluate)
        × (response ≡ some resp)
        × IsExported evaluate rule_name resp s after)

is_empty-nil : {A : Type 0} (xs : List A) → is_empty xs ≡ true → xs ≡ []
is_empty-nil [] h = refl
is_empty-nil (x ∷ xs) h = cc

evaluate_exported_variables-Exports :
    (evaluator : Option HybridEvaluator) (rule_name : String) (response : Option ResponseDefinition)
    (s : State)
    → Exports evaluator rule_name response s
        (evaluate_exported_variables evaluator rule_name response s)
unfolding evaluate_exported_variables
evaluate_exported_variables-Exports evaluator rule_name none s = inl (tt, refl)
evaluate_exported_variables-Exports none rule_name (some resp) s = inl (tt, refl)
evaluate_exported_variables-Exports (some evaluate) rule_name (some resp) s =
    let m = resp.exported_variables in
    elim (Bool-cases (is_empty m)) [
      | inl e ↦ rw e (inl (inl (is_empty-nil m e), refl))
      | inr e ↦
          elim (Result-cases
            (evaluate_exports evaluate (rule_context s) m (sort_strings (keys m)) [])) [
              | inl f ↦
                  rw (e, f.1)
                    (inl
                      (inr (evaluate_exports-IsFailing evaluate (rule_context s) m f.0 f.1), refl))
              | inr v ↦
                  rw (e, v.1)
                    (inr (
                      evaluate,
                      resp,
                      refl,
                      refl,
                      record {
                        exported = v.0;
                        values = evaluate_exports-IsValueOf evaluate (rule_context s) m v.0 v.1;
                        of_rule = refl;
                        for_rules = refl;
                        of_response = refl;
                        outcome = refl;
                        reason = refl;
                      },
                    ))
            ]
    ]

-- finishRule exports all variables of the outcome's response or none. Either it changes the outcome and
-- the reason only, and there is no such response, no evaluator, no variable, or one that cannot be
-- evaluated; or every variable has the value of its expression, and the values are kept as the rule's,
-- for later rules under its name, and for the response over what it had.
pub finish_rule-Exports :
    (evaluator : Option HybridEvaluator) (def : Definition) (outcome reason : String) (s : State)
    → Exports evaluator def.name
        (select_rule_response def outcome)
        (set_outcome outcome reason s)
        (finish_rule evaluator def outcome reason s)
unfolding finish_rule
finish_rule-Exports evaluator def outcome reason s =
    evaluate_exported_variables-Exports evaluator def.name (select_rule_response def outcome)
      (set_outcome outcome reason s)
