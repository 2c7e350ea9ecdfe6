-- ===== src/Runtime/Admission.antt =====
-- internal/runtime/admission/agent.go: admitting a request to an endpoint. This file has the agent's
-- configuration; packages net and net/netip are known by what their functions answer.
pub mod Forwarded
pub mod Proxy
pub mod Credentials
pub mod Failure
pub mod Execute
use pass_ctrl.Prelude.{
  String, Bool, true, false, not, ◌&&◌, ◌||◌, Option, none, some, List, [], ◌∷◌, if◌then◌else◌,
  ◌==◌, ℤ, any, is_empty, Result, ok, err,
}
use pass_ctrl.Text.{◌+s◌, trim_space, to_lower}
use pass_ctrl.Assoc.{Assoc}
use pass_ctrl.Rulechain.Types.{Template}
use pass_ctrl.Rulechain.Auth.{TemplateParser, compile_inline}

-- netip.ParseAddr, the address that netip.ParseAddrPort finds, the host that net.SplitHostPort finds,
-- netip.ParsePrefix, Prefix.Contains, Addr.String and the equality of addresses.
pub record Network (Addr Prefix : Type 0) : Type 0 where
  pub parse_addr : String → Option Addr
  pub parse_addr_port : String → Option Addr
  pub split_host_port : String → Option String
  pub parse_prefix : String → Option Prefix
  pub covers : Prefix → Addr → Bool
  pub addr_text : Addr → String
  pub same_addr : Addr → Addr → Bool

pub record AllowConfig : Type 0 where
  pub authorization : List String
  pub header : List String
  pub query : List String
  pub anonymous : Bool

pub record ChallengeConfig : Type 0 where
  pub kind : String
  pub realm : String
  pub charset : String

pub record AdmissionResponseConfig : Type 0 where
  pub status : ℤ
  pub headers : Assoc String
  pub body : String
  pub body_file : String

pub record AdmissionConfig : Type 0 where
  pub required : Bool
  pub allow : AllowConfig
  pub challenge : ChallengeConfig
  pub response : Option AdmissionResponseConfig

pub record AdmissionAgent (Prefix : Type 0) : Type 0 where
  pub trusted_networks : List Prefix
  pub development_mode : Bool
  pub config : AdmissionConfig
  pub compiled_body : Option Template

-- The texts that are not empty, each once, where it is first.
keep_new : List String → List String → List String
keep_new seen [] = []
keep_new seen (value ∷ values) = elim (value == "" || any (λ other. other == value) seen) [
  | true ↦ keep_new seen values
  | false ↦ value ∷ keep_new (value ∷ seen) values
]

map_text : (String → String) → List String → List String
map_text f [] = []
map_text f (value ∷ values) = f value ∷ map_text f values

-- sanitizeList
unfoldable pub sanitize_list : List String → List String
unfolding keep_new map_text
sanitize_list values = keep_new [] (map_text trim_space values)

-- sanitizeAuthorizationList
unfoldable pub sanitize_authorization_list : List String → List String
unfolding keep_new map_text
sanitize_authorization_list values =
    keep_new [] (map_text (λ value. trim_space (to_lower value)) values)

-- sanitizeConfig
unfoldable pub sanitize_config : AdmissionConfig → AdmissionConfig
unfolding sanitize_list sanitize_authorization_list
sanitize_config config =
    let allow = config.allow in
    let challenge = config.challenge in
    record config {
      allow = record allow {
        authorization = sanitize_authorization_list allow.authorization;
        header = sanitize_list allow.header;
        query = sanitize_list allow.query;
      };
      challenge = record {
        kind = to_lower (trim_space challenge.kind);
        realm = trim_space challenge.realm;
        charset = trim_space challenge.charset;
      };
    }

abbrev template_or_none : Result (Option Template) → Option Template
template_or_none (ok template) = template
template_or_none (err e) = none

-- What renders the body of a refusal: compiled inline, or by the compiler of template files.
body_template :
    TemplateParser
    → (String → Result (Option Template))
    → String
    → Option AdmissionResponseConfig
    → Option Template
body_template parser compile_file endpoint none = none
body_template parser compile_file endpoint (some response) =
    if not (trim_space response.body == "")
    then template_or_none (compile_inline parser (endpoint +s ":admission:body") response.body)
    else if not (trim_space response.body_file == "")
    then template_or_none (compile_file response.body_file)
    else none

-- NewWithConfig, with a renderer
unfoldable pub new_with_config :
    {Prefix : Type 0}
    → TemplateParser
    → (String → Result (Option Template))
    → List Prefix
    → Bool
    → AdmissionConfig
    → String
    → AdmissionAgent Prefix
unfolding body_template sanitize_config
new_with_config parser compile_file trusted development config endpoint = record {
  trusted_networks = trusted;
  development_mode = development;
  config = sanitize_config config;
  compiled_body = body_template parser compile_file endpoint config.response;
}

-- ParseCIDRs
unfoldable pub parse_cidrs :
    {Addr Prefix : Type 0} → Network Addr Prefix → List String → List Prefix
parse_cidrs net [] = []
parse_cidrs net (cidr ∷ cidrs) =
    let rest = parse_cidrs net cidrs in
    elim (net.parse_prefix (trim_space cidr)) [ none ↦ rest | some prefix ↦ prefix ∷ rest ]
