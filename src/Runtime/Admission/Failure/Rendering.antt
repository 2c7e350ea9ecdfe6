-- ===== src/Runtime/Admission/Failure/Rendering.antt =====
-- What a refusal leaves alone, and what it answers.
use pass_ctrl.Prelude.{
  String, ◌≡◌, ◌≢◌, refl, ◌∙◌, Option, none, some, [], ◌∷◌, ◌==◌, ℤ, pos, ltb_ℤ, Result, ok, err,
  inl, inr, Bool-cases, Option-cases, ◌⊎◌, arith, eq_iff, if◌then◌else◌, ap,
}
use pass_ctrl.Text.{trim_space}
use pass_ctrl.Assoc.{Assoc, get, put, put_all}
use pass_ctrl.Assoc.Laws.{get-put, get-put_self}
use pass_ctrl.Assoc.Distinct.{IsFree}
use pass_ctrl.Rulechain.Types.{Template}
use pass_ctrl.Pipeline.State.{State}
use pass_ctrl.Runtime.Engine.{TemplateEngine}
use pass_ctrl.Runtime.Admission.{AdmissionAgent, AdmissionResponseConfig}
use pass_ctrl.Runtime.Admission.Failure.{
  render_body, override_response, render_admission_failure, challenge_header,
}

-- The value that is there last under a name.
pub last_value : String → Assoc String → Option String
last_value k [] = none
last_value k ((j, v) ∷ m) = elim (last_value k m) [
  | some later ↦ some later
  | none ↦ if j == k then some v else none
]

abbrev or_before : Option String → Option String → Option String
or_before (some v) before = some v
or_before none before = before

get-put_all :
    (k : String) (from to : Assoc String)
    → get k (put_all from to) ≡ or_before (last_value k from) (get k to)
unfolding put_all last_value
get-put_all k [] to = refl
get-put_all k ((j, v) ∷ from) to = elim (Option-cases (last_value k from)) [
  | inr later ↦ rw (get-put_all k from (put j v to), later.1) refl
  | inl e ↦ rw (get-put_all k from (put j v to), e, get-put j k v to) (ground arith)
]

last_value-IsFree : (k : String) (m : Assoc String) → last_value k m ≡ none → IsFree k m
unfolding last_value
last_value-IsFree k [] = λ h. tt
last_value-IsFree k ((j, v) ∷ m) = elim (Option-cases (last_value k m)) [
  | inr later ↦ rw later.1 (λ h. cc)
  | inl e ↦ rw e (λ h. (λ same. ground (arith, eq_iff j k), last_value-IsFree k m e))
]

-- What the WWW-Authenticate header is, after the configured headers and the challenge: a configured
-- header, or the challenge, or what it was.
abbrev pub IsAuthenticate : Assoc String → String → Option String → Option String → Type 0
IsAuthenticate configured challenge before after =
    ((v : String) × (last_value "WWW-Authenticate" configured ≡ some v) × (after ≡ some v))
    ⊎ (IsFree "WWW-Authenticate" configured × (challenge ≢ "") × (after ≡ some challenge))
    ⊎ (IsFree "WWW-Authenticate" configured × (challenge ≡ "") × (after ≡ before))

put_all-IsAuthenticate :
    (challenge : String) (before configured : Assoc String)
    → IsAuthenticate configured challenge (get "WWW-Authenticate" before) (
        get "WWW-Authenticate" (
          put_all configured
            (if challenge == "" then before else put "WWW-Authenticate" challenge before)))
put_all-IsAuthenticate challenge before configured =
    let challenged = if challenge == "" then before else put "WWW-Authenticate" challenge before in
    let last = get-put_all "WWW-Authenticate" configured challenged in
    let behind : (o : Option String)
        → last_value "WWW-Authenticate" configured ≡ o
        → get "WWW-Authenticate" (put_all configured challenged)
          ≡ or_before o (get "WWW-Authenticate" challenged) =
      λ o e. last ∙ ap (λ found. or_before found (get "WWW-Authenticate" challenged)) e in
    elim (Option-cases (last_value "WWW-Authenticate" configured)) [
      | inr v ↦ inl (v.0, v.1, behind (some v.0) v.1)
      | inl e ↦
          let free = last_value-IsFree "WWW-Authenticate" configured e in
          elim (Bool-cases (challenge == "")) [
            | inl b ↦ inr (inr (free, (eq_iff challenge "").0 b, behind none e ∙ (rw b refl)))
            | inr b ↦ inr (
                inl (
                  free,
                  λ p. ground (arith, eq_iff challenge ""),
                  behind none e ∙ (rw b (get-put_self "WWW-Authenticate" challenge before)),
                ))
          ]
    ]

-- The headers that a configured response sets.
abbrev pub response_headers : Option AdmissionResponseConfig → Assoc String
response_headers none = []
response_headers (some config) = config.headers

-- The status of a refusal: 401 where no positive one is configured.
abbrev pub refusal_status : Option AdmissionResponseConfig → ℤ
refusal_status none = pos 401
refusal_status (some config) = if ltb_ℤ (pos 0) config.status then config.status else pos 401

-- The states differ in nothing but the message for the client.
abbrev IsAlike : State → State → Type 0
IsAlike s t =
    (t.admission ≡ s.admission)
    × (t.response.status ≡ s.response.status)
    × (t.response.headers ≡ s.response.headers)

module _ (engine : TemplateEngine) where
  render_text-IsAlike :
      (s : State) (r : Result String)
      → IsAlike s (elim r [
        | err e ↦ s
        | ok text ↦
            if trim_space text == ""
            then s
            else (let response = s.response in
                record s { response = record response { message = text } })
      ])
  render_text-IsAlike s (err e) = (refl, refl, refl)
  render_text-IsAlike s (ok text) = elim (Bool-cases (trim_space text == "")) [
    | inl e ↦ rw e (refl, refl, refl)
    | inr e ↦ rw e (refl, refl, refl)
  ]

  render_body-IsAlike : (body : Option Template) (s : State) → IsAlike s (render_body engine body s)
  unfolding render_body
  render_body-IsAlike none s = (refl, refl, refl)
  render_body-IsAlike (some body) s = render_text-IsAlike s (engine body s)

  -- With what the configuration of the response asks for on top.
  override_response-IsOverridden :
      (body : Option Template) (config : Option AdmissionResponseConfig) (s : State)
      → (s.response.status ≡ pos 401)
      → ((override_response engine body config s).admission ≡ s.admission)
        × ((override_response engine body config s).response.status ≡ refusal_status config)
        × ((override_response engine body config s).response.headers
            ≡ put_all (response_headers config) s.response.headers)
  unfolding override_response put_all
  override_response-IsOverridden body none s h = (refl, h, refl)
  override_response-IsOverridden body (some config) s h =
      let response = s.response in
      let alike = render_body-IsAlike body (record s {
        response = record response {
          status = if ltb_ℤ (pos 0) config.status then config.status else response.status;
          headers = put_all config.headers response.headers;
        };
      }) in
      (
        alike.0,
        alike.1 ∙ ap (λ d. if ltb_ℤ (pos 0) config.status then config.status else d) h,
        alike.2,
      )

  module _ {Prefix : Type 0} (agent : AdmissionAgent Prefix) where
    pub render_admission_failure-admission :
        (s : State) → (render_admission_failure engine agent s).admission ≡ s.admission
    unfolding render_admission_failure
    render_admission_failure-admission s =
        (override_response-IsOverridden agent.compiled_body agent.config.response _ refl).0

    pub render_admission_failure-status :
        (s : State)
        → (render_admission_failure engine agent s).response.status
          ≡ refusal_status agent.config.response
    unfolding render_admission_failure
    render_admission_failure-status s =
        (override_response-IsOverridden agent.compiled_body agent.config.response _ refl).1

    -- renderAdmissionFailure leaves the admission alone. The response has the configured status if
    -- that is positive, and else 401. Its WWW-Authenticate header is the last one of the configured
    -- headers, if they have one, and else the challenge, if there is one, and else as it was.
    pub render_admission_failure-response :
        (s : State)
        → ((render_admission_failure engine agent s).admission ≡ s.admission)
          × ((render_admission_failure engine agent s).response.status
              ≡ refusal_status agent.config.response)
          × IsAuthenticate
              (response_headers agent.config.response)
              (challenge_header agent.config.challenge)
              (get "WWW-Authenticate" s.response.headers)
              (get "WWW-Authenticate" (render_admission_failure engine agent s).response.headers)
    unfolding render_admission_failure
    render_admission_failure-response s =
        let over =
          override_response-IsOverridden agent.compiled_body agent.config.response _ refl in
        (
          over.0,
          over.1,
          rw (ap (get "WWW-Authenticate") over.2) (
              put_all-IsAuthenticate (challenge_header agent.config.challenge) s.response.headers
                (response_headers agent.config.response)),
        )
