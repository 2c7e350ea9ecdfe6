-- ===== src/Runtime/Admission/Credentials/Presented.antt =====
-- Which credentials are collected.
use pass_ctrl.Prelude.{
  String, ◌≡◌, ◌≢◌, ◌↔◌, refl, sym, ap, ◌∙◌, true, false, some, List, [], ◌∷◌, ◌++◌, ◌==◌, any, Any,
  All, All-append, inl, inr, Bool-cases, Option-cases, arith, eq_iff,
}
use pass_ctrl.Text.{trim_space, equal_fold}
use pass_ctrl.Http.{header_get, query_get}
use pass_ctrl.Pipeline.State.{AdmissionCredential, HttpRequest}
use pass_ctrl.Runtime.Admission.{AllowConfig}
use pass_ctrl.Runtime.Admission.Credentials.{
  authorization_of, basic_part, bearer_part, anonymous_part, decode_basic_credential,
  allows_authorization, basic_credential, bearer_credential, anonymous_credential, named_credential,
  basic_credentials, bearer_credentials, named_credentials, collect_credentials,
}

module _ {A : Type 0} (P : A → Type 0) where
  Any-append_left : (xs ys : List A) → Any P xs → Any P (xs ++ ys)
  Any-append_left [] ys h = elim h [ ]
  Any-append_left (x ∷ xs) ys (inl p) = inl p
  Any-append_left (x ∷ xs) ys (inr h) = inr (Any-append_left xs ys h)

  Any-append_right : (xs ys : List A) → Any P ys → Any P (xs ++ ys)
  Any-append_right [] ys h = h
  Any-append_right (x ∷ xs) ys h = inr (Any-append_right xs ys h)

-- A text of the list.
abbrev pub Lists : List String → String → Type 0
Lists names name = Any (λ other. other ≡ name) names

any-Lists_iff :
    (name : String) (names : List String)
    → (any (λ other. other == name) names ≡ true) ↔ Lists names name
any-Lists_iff name [] = (λ h. cc, λ h. elim h [ ])
any-Lists_iff name (x ∷ names) =
    let rest = any-Lists_iff name names in
    (
      λ h. elim (Bool-cases (x == name)) [
        | inl e ↦ inl ((eq_iff x name).0 e)
        | inr e ↦ inr (rest.0 (ground arith))
      ],
      λ h. elim h [
        | inl e ↦ let same = (eq_iff x name).1 e in ground arith
        | inr k ↦ let found = rest.1 k in ground arith
      ],
    )

-- A credential that the endpoint allows and that the request has.
pub data IsPresented (allow : AllowConfig) (r : HttpRequest) : AdmissionCredential → Type 0 where
  basic :
      {user pass : String}
      → Lists allow.authorization "basic"
      → equal_fold (authorization_of r).0 "basic" ≡ true
      → decode_basic_credential (authorization_of r).1 ≡ some (user, pass)
      → IsPresented allow r (basic_credential user pass)
  bearer :
      Lists allow.authorization "bearer"
      → equal_fold (authorization_of r).0 "bearer" ≡ true
      → trim_space (authorization_of r).1 ≢ ""
      → IsPresented allow r (bearer_credential (trim_space (authorization_of r).1))
  header :
      {name : String}
      → Lists allow.header name
      → trim_space (header_get name r.headers) ≢ ""
      → IsPresented allow r
          (named_credential "header" name (trim_space (header_get name r.headers)))
  query :
      {name : String}
      → Lists allow.query name
      → trim_space (query_get name r.query) ≢ ""
      → IsPresented allow r (named_credential "query" name (trim_space (query_get name r.query)))
  anonymous : allow.anonymous ≡ true → IsPresented allow r anonymous_credential

differs : {s t : String} → (s == t) ≡ false → s ≢ t
differs {s} {t} e p = ground (arith, eq_iff s t)

All-member :
    {A : Type 0} (P : A → Type 0) (c : A) (xs : List A) → All P xs → Any (λ x. x ≡ c) xs → P c
All-member P c [] h k = elim k [ ]
All-member P c (x ∷ xs) h (inl e) = rw (← e) h.0
All-member P c (x ∷ xs) h (inr k) = All-member P c xs h.1 k

module _ (allow : AllowConfig) (r : HttpRequest) where
  -- Every member is presented.
  abbrev Sound : List AdmissionCredential → Type 0
  Sound found = All (IsPresented allow r) found

  basic_part-Sound : Sound (basic_part allow (authorization_of r))
  unfolding basic_part basic_credentials allows_authorization
  basic_part-Sound = elim (Bool-cases (allows_authorization allow.authorization "basic")) [
    | inr e ↦ rw e tt
    | inl e ↦ elim (Bool-cases (equal_fold (authorization_of r).0 "basic")) [
      | inr f ↦ rw e (rw f tt)
      | inl f ↦ elim (Option-cases (decode_basic_credential (authorization_of r).1)) [
        | inl n ↦ rw e (rw f (rw n tt))
        | inr o ↦
            rw e (rw f (rw o.1 (basic ((any-Lists_iff "basic" allow.authorization).0 e) f o.1, tt)))
      ]
    ]
  ]

  bearer_part-Sound : Sound (bearer_part allow (authorization_of r))
  unfolding bearer_part bearer_credentials allows_authorization
  bearer_part-Sound = elim (Bool-cases (allows_authorization allow.authorization "bearer")) [
    | inr e ↦ rw e tt
    | inl e ↦ elim (Bool-cases (equal_fold (authorization_of r).0 "bearer")) [
      | inr f ↦ rw e (rw f tt)
      | inl f ↦ elim (Bool-cases (trim_space (authorization_of r).1 == "")) [
        | inl n ↦ rw e (rw f (rw n tt))
        | inr n ↦ rw e (
            rw f
              (rw n (bearer ((any-Lists_iff "bearer" allow.authorization).0 e) f (differs n), tt)))
      ]
    ]
  ]

  named_credentials-All :
      (P : AdmissionCredential → Type 0) (kind : String) (f : String → String) (names : List String)
      → ((name : String)
          → Lists names name
          → trim_space (f name) ≢ ""
          → P (named_credential kind name (trim_space (f name))))
      → All P (named_credentials kind f names)
  unfolding named_credentials
  named_credentials-All P kind f [] h = tt
  named_credentials-All P kind f (name ∷ names) h = elim (Bool-cases (trim_space (f name) == "")) [
    | inl e ↦ rw e (named_credentials-All P kind f names (λ other k ne. h other (inr k) ne))
    | inr e ↦ rw e (
      h name (inl refl) (differs e),
      named_credentials-All P kind f names (λ other k ne. h other (inr k) ne),
    )
  ]

  anonymous_part-Sound : Sound (anonymous_part allow)
  unfolding anonymous_part
  anonymous_part-Sound = elim (Bool-cases allow.anonymous) [
    | inl e ↦ simp e (anonymous e, tt)
    | inr e ↦ simp e tt
  ]

  collect_credentials-Sound : Sound (collect_credentials allow r)
  unfolding collect_credentials
  collect_credentials-Sound = All-append (IsPresented allow r) _ _ basic_part-Sound (
      All-append (IsPresented allow r) _ _ bearer_part-Sound (
        All-append (IsPresented allow r) _ _
          (named_credentials-All (IsPresented allow r) "header" (λ name. header_get name r.headers)
            allow.header (λ name k ne. header k ne))
          (All-append (IsPresented allow r) _ _
            (named_credentials-All (IsPresented allow r) "query" (λ name. query_get name r.query)
              allow.query (λ name k ne. query k ne))
            anonymous_part-Sound)))

  -- Every credential that is presented is a member.
  named_credentials-Has :
      (kind : String) (f : String → String) (name : String) (names : List String)
      → trim_space (f name) ≢ ""
      → Lists names name
      → Any
          (λ c. c ≡ named_credential kind name (trim_space (f name)))
          (named_credentials kind f names)
  unfolding named_credentials
  named_credentials-Has kind f name [] ne h = elim h [ ]
  named_credentials-Has kind f name (x ∷ names) ne (inl e) =
      elim (Bool-cases (trim_space (f x) == "")) [
        | inl q ↦
            elim (ne (ap (λ n. trim_space (f n)) (sym e) ∙ (eq_iff (trim_space (f x)) "").0 q)) [ ]
        | inr q ↦ rw q (inl (ap (λ n. named_credential kind n (trim_space (f n))) e))
      ]
  named_credentials-Has kind f name (x ∷ names) ne (inr h) =
      elim (Bool-cases (trim_space (f x) == "")) [
        | inl q ↦ rw q (named_credentials-Has kind f name names ne h)
        | inr q ↦ rw q (inr (named_credentials-Has kind f name names ne h))
      ]

  basic_part-Has :
      (user pass : String)
      → Lists allow.authorization "basic"
      → equal_fold (authorization_of r).0 "basic" ≡ true
      → decode_basic_credential (authorization_of r).1 ≡ some (user, pass)
      → Any (λ x. x ≡ basic_credential user pass) (basic_part allow (authorization_of r))
  unfolding basic_part basic_credentials allows_authorization
  basic_part-Has user pass k f o =
      rw ((any-Lists_iff "basic" allow.authorization).1 k) (rw f (rw o (inl refl)))

  bearer_part-Has :
      Lists allow.authorization "bearer"
      → equal_fold (authorization_of r).0 "bearer" ≡ true
      → trim_space (authorization_of r).1 ≢ ""
      → Any
          (λ x. x ≡ bearer_credential (trim_space (authorization_of r).1))
          (bearer_part allow (authorization_of r))
  unfolding bearer_part bearer_credentials allows_authorization
  bearer_part-Has k f ne = elim (Bool-cases (trim_space (authorization_of r).1 == "")) [
    | inl e ↦ elim (ne ((eq_iff (trim_space (authorization_of r).1) "").0 e)) [ ]
    | inr e ↦ rw ((any-Lists_iff "bearer" allow.authorization).1 k) (rw f (rw e (inl refl)))
  ]

  anonymous_part-Has :
      allow.anonymous ≡ true → Any (λ x. x ≡ anonymous_credential) (anonymous_part allow)
  unfolding anonymous_part
  anonymous_part-Has e = simp e (inl refl)

  after_basic :
      (c : AdmissionCredential) (rest : List AdmissionCredential)
      → Any (λ x. x ≡ c) rest
      → Any (λ x. x ≡ c) (basic_part allow (authorization_of r) ++ rest)
  after_basic c rest = Any-append_right (λ x. x ≡ c) (basic_part allow (authorization_of r)) rest

  after_bearer :
      (c : AdmissionCredential) (rest : List AdmissionCredential)
      → Any (λ x. x ≡ c) rest
      → Any (λ x. x ≡ c) (bearer_part allow (authorization_of r) ++ rest)
  after_bearer c rest = Any-append_right (λ x. x ≡ c) (bearer_part allow (authorization_of r)) rest

  after_headers :
      (c : AdmissionCredential) (rest : List AdmissionCredential)
      → Any (λ x. x ≡ c) rest
      → Any
          (λ x. x ≡ c)
          (named_credentials "header" (λ n. header_get n r.headers) allow.header ++ rest)
  after_headers c rest =
      Any-append_right (λ x. x ≡ c)
        (named_credentials "header" (λ n. header_get n r.headers) allow.header) rest

  collect_credentials-Complete :
      (c : AdmissionCredential)
      → IsPresented allow r c
      → Any (λ x. x ≡ c) (collect_credentials allow r)
  unfolding collect_credentials
  collect_credentials-Complete c (basic {user} {pass} k f o) =
      Any-append_left (λ x. x ≡ c) (basic_part allow (authorization_of r)) _
        (basic_part-Has user pass k f o)
  collect_credentials-Complete c (bearer k f ne) = after_basic c _ (
      Any-append_left (λ x. x ≡ c) (bearer_part allow (authorization_of r)) _
        (bearer_part-Has k f ne))
  collect_credentials-Complete c (header {name} k ne) = after_basic c _ (
      after_bearer c _ (
        Any-append_left (λ x. x ≡ c) _ _
          (named_credentials-Has "header" (λ n. header_get n r.headers) name allow.header ne k)))
  collect_credentials-Complete c (query {name} k ne) = after_basic c _ (
      after_bearer c _ (
        after_headers c _ (
          Any-append_left (λ x. x ≡ c) _ _
            (named_credentials-Has "query" (λ n. query_get n r.query) name allow.query ne k))))
  collect_credentials-Complete c (anonymous e) = after_basic c _ (
      after_bearer c _
        (after_headers c _ (Any-append_right (λ x. x ≡ c) _ _ (anonymous_part-Has e))))

-- collectCredentials gives exactly the credentials that the request has and the endpoint allows: basic
-- and bearer ones of the Authorization header, headers and query parameters of the listed names that are
-- not blank, and the anonymous one.
pub collect_credentials-IsPresented_iff :
    (allow : AllowConfig) (r : HttpRequest) (c : AdmissionCredential)
    → Any (λ x. x ≡ c) (collect_credentials allow r) ↔ IsPresented allow r c
collect_credentials-IsPresented_iff allow r c = (
  All-member (IsPresented allow r) c (collect_credentials allow r)
      (collect_credentials-Sound allow r),
  collect_credentials-Complete allow r c,
)
