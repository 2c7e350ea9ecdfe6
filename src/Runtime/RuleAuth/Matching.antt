-- ===== src/Runtime/RuleAuth/Matching.antt =====
-- What the matchers of a directive ask of the admitted credentials.
use pass_ctrl.Prelude.{
  ◌≡◌, ◌≢◌, ◌⊎◌, ◌↔◌, refl, String, Bool, true, ◌&&◌, Option, none, some, List, [], ◌∷◌, arith,
  eq_iff, inl, inr, All, Any, any,
}
use pass_ctrl.Rulechain.Types.{ValueMatcher, AuthMatcher}
use pass_ctrl.Pipeline.State.{AdmissionCredential}
use pass_ctrl.Runtime.Engine.{RegexEngine, matches}
use pass_ctrl.Runtime.RuleAuth.{
  kind-cases, extract_credentials, matches_any_value_matcher, matches_field, check_matcher,
  check_all_matchers,
}
use pass_ctrl.Runtime.RuleAuth.Extraction.{
  last_where, is_bearer, is_basic, is_header, is_query, extract_credentials-last,
}

module _ (regex : RegexEngine) where
  -- No constraint, or one of the matchers matches.
  abbrev pub IsAccepted : String → List ValueMatcher → Type 0
  IsAccepted text ms = (ms ≡ []) ⊎ Any (λ m. matches regex text m ≡ true) ms

  -- The credential is there, and its field is accepted.
  abbrev pub HasField :
      (AdmissionCredential → String) → List ValueMatcher → Option AdmissionCredential → Type 0
  HasField field ms found =
      (cred : AdmissionCredential) × (found ≡ some cred) × IsAccepted (field cred) ms

  -- What a matcher asks of the admitted credentials, by its kind.
  pub data IsSatisfied (creds : List AdmissionCredential) (m : AuthMatcher) : Type 0 where
    by_bearer :
        m.kind ≡ "bearer"
        → HasField (λ cred. cred.token) m.value_matchers (last_where is_bearer creds)
        → IsSatisfied creds m
    by_basic :
        m.kind ≡ "basic"
        → HasField (λ cred. cred.username) m.username_matchers (last_where is_basic creds)
        → HasField (λ cred. cred.password) m.password_matchers (last_where is_basic creds)
        → IsSatisfied creds m
    by_header :
        m.kind ≡ "header"
        → HasField (λ cred. cred.value) m.value_matchers (last_where (is_header m.match_name) creds)
        → IsSatisfied creds m
    by_query :
        m.kind ≡ "query"
        → HasField (λ cred. cred.value) m.value_matchers (last_where (is_query m.name) creds)
        → IsSatisfied creds m
    by_nothing :
        m.kind ≢ "bearer"
        → m.kind ≢ "basic"
        → m.kind ≢ "header"
        → m.kind ≢ "query"
        → IsSatisfied creds m

  any_iff :
      (text : String) (ms : List ValueMatcher)
      → (any (matches regex text) ms ≡ true) ↔ Any (λ m. matches regex text m ≡ true) ms
  any_iff text [] = ground arith
  any_iff text (m ∷ ms) = ground (arith, any_iff text ms)

  matches_any-IsAccepted_iff :
      (text : String) (ms : List ValueMatcher)
      → (matches_any_value_matcher regex text ms ≡ true) ↔ IsAccepted text ms
  unfolding matches_any_value_matcher
  matches_any-IsAccepted_iff text [] = ground arith
  matches_any-IsAccepted_iff text (m ∷ ms) = ground (arith, any_iff text (m ∷ ms))

  matches_field-HasField_iff :
      (field : AdmissionCredential → String) (ms : List ValueMatcher)
      (found : Option AdmissionCredential)
      → (matches_field regex field ms found ≡ true) ↔ HasField field ms found
  matches_field-HasField_iff field ms none = (λ h. cc, λ h. cc)
  matches_field-HasField_iff field ms (some cred) = (
    (λ h. (cred, refl, (matches_any-IsAccepted_iff (field cred) ms).0 h)),
    λ h. let accepted = (matches_any-IsAccepted_iff (field h.0) ms).1 h.2 in cc,
  )

  field_iff :
      (field : AdmissionCredential → String) (ms : List ValueMatcher)
      {found : Option AdmissionCredential} {found' : Option AdmissionCredential}
      → found ≡ found'
      → (matches_field regex field ms found ≡ true) ↔ HasField field ms found'
  field_iff field ms {found} e = rw⁻¹ e (matches_field-HasField_iff field ms found)

  both_iff :
      {a : Bool} {b : Bool} {A : Type 0} {B : Type 0}
      → (a ≡ true) ↔ A
      → (b ≡ true) ↔ B
      → ((a && b) ≡ true) ↔ (A × B)
  both_iff f g = ground arith

  module _ (creds : List AdmissionCredential) (m : AuthMatcher) where
    check_matcher-bearer_iff :
        m.kind ≡ "bearer"
        → (check_matcher regex (extract_credentials creds) m ≡ true)
          ↔ (HasField (λ cred. cred.token) m.value_matchers (last_where is_bearer creds))
    unfolding check_matcher
    check_matcher-bearer_iff k =
        rw k (
          field_iff (λ cred. cred.token) m.value_matchers (extract_credentials-last creds m.name).0)

    check_matcher-basic_iff :
        m.kind ≡ "basic"
        → (check_matcher regex (extract_credentials creds) m ≡ true) ↔ (
            HasField (λ cred. cred.username) m.username_matchers (last_where is_basic creds)
            × HasField (λ cred. cred.password) m.password_matchers (last_where is_basic creds))
    unfolding check_matcher
    check_matcher-basic_iff k = rw k (
        both_iff
          (field_iff (λ cred. cred.username) m.username_matchers
            (extract_credentials-last creds m.name).1)
          (field_iff (λ cred. cred.password) m.password_matchers
            (extract_credentials-last creds m.name).1))

    check_matcher-header_iff :
        m.kind ≡ "header"
        → (check_matcher regex (extract_credentials creds) m ≡ true) ↔ (
            HasField
              (λ cred. cred.value)
              m.value_matchers
              (last_where (is_header m.match_name) creds))
    unfolding check_matcher
    check_matcher-header_iff k = rw k (
        field_iff (λ cred. cred.value) m.value_matchers
          (extract_credentials-last creds m.match_name).2)

    check_matcher-query_iff :
        m.kind ≡ "query"
        → (check_matcher regex (extract_credentials creds) m ≡ true)
          ↔ (HasField (λ cred. cred.value) m.value_matchers (last_where (is_query m.name) creds))
    unfolding check_matcher
    check_matcher-query_iff k =
        rw k (
          field_iff (λ cred. cred.value) m.value_matchers (extract_credentials-last creds m.name).3)

    check_matcher→IsSatisfied :
        check_matcher regex (extract_credentials creds) m ≡ true → IsSatisfied creds m
    check_matcher→IsSatisfied h = elim (kind-cases m.kind) [
      | inl k ↦ by_bearer k ((check_matcher-bearer_iff k).0 h)
      | inr (inl k) ↦ (let both = (check_matcher-basic_iff k).0 h in by_basic k both.0 both.1)
      | inr (inr (inl k)) ↦ by_header k ((check_matcher-header_iff k).0 h)
      | inr (inr (inr (inl k))) ↦ by_query k ((check_matcher-query_iff k).0 h)
      | inr (inr (inr (inr n))) ↦
          by_nothing (ground (arith, eq_iff m.kind "bearer"))
            (ground (arith, eq_iff m.kind "basic")) (ground (arith, eq_iff m.kind "header"))
            (ground (arith, eq_iff m.kind "query"))
    ]

    IsSatisfied→check_matcher :
        IsSatisfied creds m → check_matcher regex (extract_credentials creds) m ≡ true
    unfolding check_matcher
    IsSatisfied→check_matcher (by_bearer k f) = (check_matcher-bearer_iff k).1 f
    IsSatisfied→check_matcher (by_basic k f g) = (check_matcher-basic_iff k).1 (f, g)
    IsSatisfied→check_matcher (by_header k f) = (check_matcher-header_iff k).1 f
    IsSatisfied→check_matcher (by_query k f) = (check_matcher-query_iff k).1 f
    IsSatisfied→check_matcher (by_nothing n1 n2 n3 n4) = elim (kind-cases m.kind) [
      | inl k ↦ elim (n1 k) [ ]
      | inr (inl k) ↦ elim (n2 k) [ ]
      | inr (inr (inl k)) ↦ elim (n3 k) [ ]
      | inr (inr (inr (inl k))) ↦ elim (n4 k) [ ]
      | inr (inr (inr (inr n))) ↦ rw (n.0, n.1, n.2, n.3)
    ]

  -- checkAllMatchers accepts the credentials that extractCredentials keeps if and only if every matcher
  -- is satisfied by the admitted credentials: the last one of the matcher's kind (and of its name, for a
  -- header or a query parameter) is there, and each of its constrained fields matches one of the values.
  pub check_all_matchers-IsSatisfied_iff :
      (creds : List AdmissionCredential) (ms : List AuthMatcher)
      → (check_all_matchers regex ms (extract_credentials creds) ≡ true)
        ↔ All (IsSatisfied creds) ms
  unfolding check_all_matchers
  check_all_matchers-IsSatisfied_iff creds [] = (λ h. tt, λ h. refl)
  check_all_matchers-IsSatisfied_iff creds (m ∷ ms) =
      both_iff (check_matcher→IsSatisfied creds m, IsSatisfied→check_matcher creds m)
        (check_all_matchers-IsSatisfied_iff creds ms)
