-- ===== src/Runtime/RuleAuth/Extraction.antt =====
-- Which of the admitted credentials extractCredentials keeps.
use pass_ctrl.Prelude.{
  ◌≡◌, refl, ◌∙◌, ap, String, Bool, ◌&&◌, Option, none, some, List, [], ◌∷◌, if◌then◌else◌, ◌==◌,
  arith, inl, inr,
}
use pass_ctrl.Text.{to_lower}
use pass_ctrl.Assoc.{get}
use pass_ctrl.Assoc.Laws.{get-put}
use pass_ctrl.Pipeline.State.{AdmissionCredential}
use pass_ctrl.Runtime.RuleAuth.{
  ExtractedCredentials, keep_credential, kind-cases, extract_credentials, keep_credentials,
  nothing_extracted,
}

abbrev pub or_else {ℓ} : {A : Type ℓ} → Option A → Option A → Option A
or_else none o = o
or_else (some a) o = some a

-- The last member of a list that passes a test.
abbrev pub last_where {ℓ} : {A : Type ℓ} → (A → Bool) → List A → Option A
last_where p [] = none
last_where p (x ∷ xs) = or_else (last_where p xs) (if p x then some x else none)

abbrev pub is_bearer : AdmissionCredential → Bool
is_bearer cred = cred.kind == "bearer"

abbrev pub is_basic : AdmissionCredential → Bool
is_basic cred = cred.kind == "basic"

abbrev pub is_header : String → AdmissionCredential → Bool
is_header name cred = (cred.kind == "header") && (to_lower cred.name == name)

abbrev pub is_query : String → AdmissionCredential → Bool
is_query name cred = (cred.kind == "query") && (cred.name == name)

or_else-last_where :
    (p : AdmissionCredential → Bool) (cred : AdmissionCredential) (creds : List AdmissionCredential)
    (o : Option AdmissionCredential)
    → or_else (last_where p creds) (if p cred then some cred else o)
      ≡ or_else (last_where p (cred ∷ creds)) o
or_else-last_where p cred creds o = ground arith

keep_credential_lem :
    (cred : AdmissionCredential) (e : ExtractedCredentials) (name : String)
    → ((keep_credential cred e).bearer ≡ (if is_bearer cred then some cred else e.bearer))
      × ((keep_credential cred e).basic ≡ (if is_basic cred then some cred else e.basic))
      × (get name (keep_credential cred e).headers
          ≡ (if is_header name cred then some cred else get name e.headers))
      × (get name (keep_credential cred e).query
          ≡ (if is_query name cred then some cred else get name e.query))
unfolding keep_credential
keep_credential_lem cred e name = elim (kind-cases cred.kind) [
  | inl k ↦ rw k (refl, refl, refl, refl)
  | inr (inl k) ↦ rw k (refl, refl, refl, refl)
  | inr (inr (inl k)) ↦
      simp (k, get-put (to_lower cred.name) name cred e.headers) (refl, refl, refl, refl)
  | inr (inr (inr (inl k))) ↦ simp (k, get-put cred.name name cred e.query) (refl, refl, refl, refl)
  | inr (inr (inr (inr h))) ↦ rw (h.0, h.1, h.2, h.3) (refl, refl, refl, refl)
]

keep_credentials_lem :
    (creds : List AdmissionCredential) (e : ExtractedCredentials) (name : String)
    → ((keep_credentials creds e).bearer ≡ or_else (last_where is_bearer creds) e.bearer)
      × ((keep_credentials creds e).basic ≡ or_else (last_where is_basic creds) e.basic)
      × (get name (keep_credentials creds e).headers
          ≡ or_else (last_where (is_header name) creds) (get name e.headers))
      × (get name (keep_credentials creds e).query
          ≡ or_else (last_where (is_query name) creds) (get name e.query))
unfolding keep_credentials
keep_credentials_lem [] e name = (refl, refl, refl, refl)
keep_credentials_lem (cred ∷ creds) e name =
    let h = keep_credentials_lem creds (keep_credential cred e) name in
    let k = keep_credential_lem cred e name in
    (
      h.0 ∙ step e.bearer is_bearer k.0,
      h.1 ∙ step e.basic is_basic k.1,
      h.2 ∙ step (get name e.headers) (is_header name) k.2,
      h.3 ∙ step (get name e.query) (is_query name) k.3,
    )
  where
    step :
        (o : Option AdmissionCredential) {o' : Option AdmissionCredential}
        (p : AdmissionCredential → Bool)
        → o' ≡ (if p cred then some cred else o)
        → or_else (last_where p creds) o' ≡ or_else (last_where p (cred ∷ creds)) o
    step o p k = ap (or_else (last_where p creds)) k ∙ or_else-last_where p cred creds o

or_else-none : (o : Option AdmissionCredential) → or_else o none ≡ o
or_else-none none = refl
or_else-none (some cred) = refl

-- extractCredentials keeps, of the admitted credentials, the last bearer token, the last pair of basic
-- credentials, for each name the last header that is spelled so in lower case, and for each name the
-- last query parameter of exactly this name.
pub extract_credentials-last :
    (creds : List AdmissionCredential) (name : String)
    → ((extract_credentials creds).bearer ≡ last_where is_bearer creds)
      × ((extract_credentials creds).basic ≡ last_where is_basic creds)
      × (get name (extract_credentials creds).headers ≡ last_where (is_header name) creds)
      × (get name (extract_credentials creds).query ≡ last_where (is_query name) creds)
unfolding extract_credentials get
extract_credentials-last creds name =
    let h = keep_credentials_lem creds nothing_extracted name in
    (
      h.0 ∙ or_else-none (last_where is_bearer creds),
      h.1 ∙ or_else-none (last_where is_basic creds),
      h.2 ∙ or_else-none (last_where (is_header name) creds),
      h.3 ∙ or_else-none (last_where (is_query name) creds),
    )
