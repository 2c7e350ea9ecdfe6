-- ===== src/Runtime/Admission/Credentials.antt =====
-- The credentials of a request that an endpoint allows.
pub mod Presented
pub mod Basic
use pass_ctrl.Prelude.{
  ℕ, String, Bool, true, false, ◌&&◌, ◌||◌, Option, none, some, List, [], ◌∷◌, ◌++◌, if◌then◌else◌,
  ◌==◌, any,
}
use pass_ctrl.Text.{◌+s◌, trim_space, equal_fold, Cut, cut}
use pass_ctrl.Text.Decoding.{decode_base64, runes}
use pass_ctrl.Assoc.{Assoc}
use pass_ctrl.Http.{Header, header_get, query_get}
use pass_ctrl.Pipeline.State.{AdmissionCredential, HttpRequest}
use pass_ctrl.Runtime.Admission.{AllowConfig}

-- parseAuthorization
unfoldable pub parse_authorization : String → String × String
parse_authorization header =
    let parts = cut header b' ' in
    (trim_space parts.before, elim parts.after [ none ↦ "" | some rest ↦ trim_space rest ])

user_of : Cut → Option (String × String)
user_of creds = elim creds.after [ none ↦ none | some password ↦ some (creds.before, password) ]

pub credential_of : Option (List ℕ) → Option (String × String)
unfolding user_of
credential_of none = none
credential_of (some decoded) = user_of (cut (runes decoded) b':')

-- decodeBasicCredential
unfoldable pub decode_basic_credential : String → Option (String × String)
decode_basic_credential payload = credential_of (decode_base64 (trim_space payload))

-- allowsAuthorization
unfoldable pub allows_authorization : List String → String → Bool
allows_authorization list kind = any (λ value. value == kind) list

abbrev pub no_credential : AdmissionCredential
no_credential = record {
  kind = "";
  name = "";
  value = "";
  token = "";
  username = "";
  password = "";
  source = "";
}

abbrev pub basic_credential : String → String → AdmissionCredential
basic_credential user pass = record no_credential {
  kind = "basic";
  username = user;
  password = pass;
  source = "authorization";
}

abbrev pub bearer_credential : String → AdmissionCredential
bearer_credential token = record no_credential {
  kind = "bearer";
  token = token;
  source = "authorization";
}

abbrev pub anonymous_credential : AdmissionCredential
anonymous_credential = record no_credential { kind = "none"; source = "anonymous" }

basic_credentials : Option (String × String) → List AdmissionCredential
basic_credentials none = []
basic_credentials (some (user, pass)) = basic_credential user pass ∷ []

bearer_credentials : String → List AdmissionCredential
bearer_credentials token = if token == "" then [] else bearer_credential token ∷ []

abbrev pub named_credential : String → String → String → AdmissionCredential
named_credential kind name value = record no_credential {
  kind = kind;
  name = name;
  value = value;
  source = kind +s ":" +s name;
}

-- The credential of one kind that has a value for a name, for each name.
unfoldable pub named_credentials :
    String → (String → String) → List String → List AdmissionCredential
named_credentials kind value_of [] = []
named_credentials kind value_of (name ∷ names) =
    let rest = named_credentials kind value_of names in
    let value = trim_space (value_of name) in
    if value == "" then rest else named_credential kind name value ∷ rest

unfoldable pub basic_part : AllowConfig → String × String → List AdmissionCredential
unfolding basic_credentials
basic_part allow authorization =
    if allows_authorization allow.authorization "basic" && equal_fold authorization.0 "basic"
    then basic_credentials (decode_basic_credential authorization.1)
    else []

unfoldable pub bearer_part : AllowConfig → String × String → List AdmissionCredential
unfolding bearer_credentials
bearer_part allow authorization =
    if allows_authorization allow.authorization "bearer" && equal_fold authorization.0 "bearer"
    then bearer_credentials (trim_space authorization.1)
    else []

unfoldable pub anonymous_part : AllowConfig → List AdmissionCredential
anonymous_part allow = if allow.anonymous then anonymous_credential ∷ [] else []

-- The scheme and the parameter of the request's Authorization header.
unfoldable pub authorization_of : HttpRequest → String × String
authorization_of r = parse_authorization (trim_space (header_get "Authorization" r.headers))

-- collectCredentials
unfoldable pub collect_credentials : AllowConfig → HttpRequest → List AdmissionCredential
collect_credentials allow r =
    basic_part allow (authorization_of r)
    ++ (bearer_part allow (authorization_of r)
        ++ (named_credentials "header" (λ name. header_get name r.headers) allow.header
            ++ (named_credentials "query" (λ name. query_get name r.query) allow.query
                ++ anonymous_part allow)))
