-- ===== src/Service/Keys.antt =====
-- internal/runtime/helpers.go and deriveCacheKey of runtime.go: the key of a request in the decision cache.
-- SHA-256 with its URL-safe base64 text comes as an argument.
use pass_ctrl.Prelude.{
  ℕ, String, not, ◌&&◌, Option, none, some, List, [], ◌∷◌, ◌==◌, if◌then◌else◌, is_empty,
}
use pass_ctrl.Text.{◌+s◌, trim_space, show_nat}
use pass_ctrl.Http.{header_get, query_get}
use pass_ctrl.Pipeline.State.{HttpRequest}
use pass_ctrl.Runtime.Admission.{AdmissionConfig}

-- The first name with a value, as a text with a label in front.
first_named : String → (String → String) → List String → Option String
first_named label value_of [] = none
first_named label value_of (name ∷ names) =
    let rest = first_named label value_of names in
    if value_of name == "" then rest else some (label +s name +s ":" +s value_of name)

or_text : Option String → String → String
or_text none text = text
or_text (some found) text = found

authorization_key : AdmissionConfig → HttpRequest → Option String
authorization_key auth r =
    let header = trim_space (header_get "Authorization" r.headers) in
    if not (is_empty auth.allow.authorization) && not (header == "")
    then some ("auth:" +s header)
    else none

-- extractCredential
unfoldable pub extract_credential : HttpRequest → AdmissionConfig → String
unfolding authorization_key first_named or_text
extract_credential r auth = or_text (authorization_key auth r) (
    or_text
      (first_named "header:" (λ name. trim_space (header_get name r.headers)) auth.allow.header)
      (or_text (first_named "query:" (λ name. query_get name r.query) auth.allow.query)
        ("ip:" +s r.remote_addr)))

-- cacheKeyFromRequest
unfoldable pub cache_key_from_request : HttpRequest → String → AdmissionConfig → String
cache_key_from_request r endpoint auth =
    extract_credential r auth +s "|" +s endpoint +s "|" +s r.path

-- Where the keys of a pipeline are.
pub record KeySpace : Type 0 where
  pub namespace : String
  pub epoch : ℕ
  pub salt : String

abbrev pub key_prefix : KeySpace → String
key_prefix space = space.namespace +s ":" +s show_nat space.epoch +s ":"

-- base64.RawURLEncoding of sha256.Sum256
abbrev pub Digest : Type 0
Digest = String → String

-- deriveCacheKey
unfoldable pub derive_cache_key :
    Digest → KeySpace → HttpRequest → String → AdmissionConfig → String
derive_cache_key digest space r endpoint auth =
    if auth.allow.anonymous
    then ""
    else key_prefix space +s digest (space.salt +s cache_key_from_request r endpoint auth)
