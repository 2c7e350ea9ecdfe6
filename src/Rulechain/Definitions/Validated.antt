-- ===== src/Rulechain/Definitions/Validated.antt =====
-- The rules that the loader keeps, against those whose conditions compile.
use pass_ctrl.Prelude.{
  ℕ, suc, String, ◌≡◌, ◌↔◌, refl, Option, none, some, List, [], ◌∷◌, ◌==◌, Result, ok, err, ◌>>=◌,
  inl, inr, Bool-cases, Option-cases,
}
use pass_ctrl.Text.{trim_space}
use pass_ctrl.Config.Types.{RuleConfig, RuleConditionConfig}
use pass_ctrl.Config.Loader.{Compiler, validate_condition_list, validate_rule, first_error}
use pass_ctrl.Rulechain.Types.{ConditionPrograms, Program}
use pass_ctrl.Rulechain.Auth.{within}
use pass_ctrl.Rulechain.Definitions.{
  program_of, ConditionSpec, compile_program, compile_programs, compile_condition_programs,
}

abbrev pub IsOk : {A : Type 0} → Result A → Type 0
IsOk (ok a) = Unit
IsOk (err e) = ⊥

-- The specification of a rule's conditions in runtime.go.
abbrev pub conditions_of : RuleConditionConfig → ConditionSpec
conditions_of config = record { pass = config.pass; fail = config.fail; error = config.error }

abbrev programs_of : List Program → List Program → List Program → ConditionPrograms
programs_of pass fail error = record { pass = pass; fail = fail; error = error }

absurd : {A : Type 0} → ⊥ → A
absurd h = elim h [ ]

IsOk-push :
    (p : Program) (r : Result (List Program))
    → IsOk (ok p >>= λ q. r >>= λ qs. ok (q ∷ qs)) ↔ IsOk r
IsOk-push p (ok ps) = (λ h. tt, λ h. tt)
IsOk-push p (err e) = (λ h. h, λ h. h)

IsOk-within : {A : Type 0} (context : String) (r : Result A) → IsOk (within context r) ↔ IsOk r
IsOk-within context (ok a) = (λ h. h, λ h. h)
IsOk-within context (err e) = (λ h. h, λ h. h)

IsOk-three :
    (p f e : Result (List Program))
    → IsOk (do pass ← p; fail ← f; error ← e; ok (programs_of pass fail error))
      ↔ (IsOk p × IsOk f × IsOk e)
IsOk-three (err x) f e = (λ h. elim h [ ], λ h. h.0)
IsOk-three (ok p) (err x) e = (λ h. elim h [ ], λ h. h.1)
IsOk-three (ok p) (ok f) (err x) = (λ h. elim h [ ], λ h. h.2)
IsOk-three (ok p) (ok f) (ok e) = (λ h. (tt, tt, tt), λ h. tt)

first_error-none : (a b : Option String) → (first_error a b ≡ none) ↔ ((a ≡ none) × (b ≡ none))
unfolding first_error
first_error-none none b = (λ h. (refl, h), λ h. h.1)
first_error-none (some e) b = (λ h. cc, λ h. cc)

module _ (compile : Compiler) where
  compile_programs-accepted :
      (name : String) (idx : ℕ) (xs : List String)
      → (validate_condition_list compile name idx xs ≡ none) ↔ IsOk (compile_programs compile xs)
  unfolding validate_condition_list compile_programs compile_program program_of
  compile_programs-accepted name idx [] = (λ h. tt, λ h. refl)
  compile_programs-accepted name idx (x ∷ xs) = elim (Bool-cases (trim_space x == "")) [
    | inl e ↦ rw e (compile_programs-accepted name (suc idx) xs)
    | inr e ↦ elim (Option-cases (compile (trim_space x))) [
      | inr q ↦ rw (e, q.1) (λ h. cc, λ h. absurd h)
      | inl q ↦
          let rest = compile_programs-accepted name (suc idx) xs in
          let push = IsOk-push (record { source = trim_space x }) (compile_programs compile xs) in
          rw (e, q) (λ h. push.1 (rest.0 h), λ h. rest.1 (push.0 h))
    ]
  ]

  abbrev checked : String → List String → Option String
  checked name xs = validate_condition_list compile name 0 xs

  compiled :
      (name context : String) (xs : List String)
      → (checked name xs ≡ none) ↔ IsOk (within context (compile_programs compile xs))
  compiled name context xs =
      let accepted = compile_programs-accepted name 0 xs in
      let inside = IsOk-within context (compile_programs compile xs) in
      (λ h. inside.1 (accepted.0 h), λ h. accepted.1 (inside.0 h))

  -- The loader's check of a rule accepts its conditions exactly when the rule chain's compiler does.
  pub validate_rule-compile_condition_programs :
      (config : RuleConfig)
      → (validate_rule compile config ≡ none)
        ↔ IsOk (compile_condition_programs compile (conditions_of config.conditions))
  unfolding validate_rule compile_condition_programs
  validate_rule-compile_condition_programs config =
      let conditions = config.conditions in
      let p = compiled "pass" "pass conditions" conditions.pass in
      let f = compiled "fail" "fail conditions" conditions.fail in
      let e = compiled "error" "error conditions" conditions.error in
      let outer =
        first_error-none (checked "pass" conditions.pass)
          (first_error (checked "fail" conditions.fail) (checked "error" conditions.error)) in
      let inner =
        first_error-none (checked "fail" conditions.fail) (checked "error" conditions.error) in
      let three =
        IsOk-three (within "pass conditions" (compile_programs compile conditions.pass))
          (within "fail conditions" (compile_programs compile conditions.fail))
          (within "error conditions" (compile_programs compile conditions.error)) in
      (
        λ h.
            three.1
              (p.0 (outer.0 h).0, f.0 (inner.0 (outer.0 h).1).0, e.0 (inner.0 (outer.0 h).1).1),
        λ h. outer.1 (p.1 (three.0 h).0, inner.1 (f.1 (three.0 h).1, e.1 (three.0 h).2)),
      )
