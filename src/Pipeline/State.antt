-- ===== src/Pipeline/State.antt =====
-- internal/runtime/pipeline/state.go: the state that the agents of a pipeline share. Times are
-- nanoseconds since the zero time. The audit snapshot of the admission, a copy of its other fields, is
-- left out.
use pass_ctrl.Prelude.{String, Bool, false, ℕ, Option, none, some, List, [], ◌∷◌, ℤ, pos}
use pass_ctrl.Text.{to_lower}
use pass_ctrl.Assoc.{Assoc, put}
use pass_ctrl.Value.{Value}
use pass_ctrl.Rulechain.Types.{ExecutionPlan}

-- What an agent reports. The metadata for observers is left out.
pub record AgentResult : Type 0 where
  pub name : String
  pub status : String
  pub details : String

pub record ServerState : Type 0 where
  pub pipeline_ready : Bool
  pub observed_at : ℕ

pub record RequestState : Type 0 where
  pub method : String
  pub path : String
  pub host : String
  pub headers : Assoc String
  pub query : Assoc String

pub record AdmissionAllow : Type 0 where
  pub authorization : List String
  pub header : List String
  pub query : List String
  pub anonymous : Bool

pub record AdmissionCredential : Type 0 where
  pub kind : String
  pub name : String
  pub value : String
  pub token : String
  pub username : String
  pub password : String
  pub source : String

pub record AdmissionState : Type 0 where
  pub authenticated : Bool
  pub reason : String
  pub captured_at : ℕ
  pub client_ip : String
  pub trusted_proxy : Bool
  pub proxy_stripped : Bool
  pub forwarded_for : String
  pub forwarded : String
  pub proxy_note : String
  pub decision : String
  pub allow : AdmissionAllow
  pub credentials : List AdmissionCredential

pub record ForwardState : Type 0 where
  pub headers : Assoc String
  pub query : Assoc String

pub record RuleHistoryEntry : Type 0 where
  pub name : String
  pub outcome : String
  pub reason : String
  pub duration : ℕ
  pub variables : Assoc Value
  pub from_cache : Bool

pub record RuleAuthState : Type 0 where
  pub selected : String
  pub input : Assoc Value
  pub forward : Assoc Value

pub record RuleVariableState : Type 0 where
  pub rule : Assoc Value
  pub local : Assoc Value
  pub exported : Assoc Value

pub record RuleState : Type 0 where
  pub outcome : String
  pub reason : String
  pub executed : Bool
  pub from_cache : Bool
  pub evaluated_at : ℕ
  pub should_execute : Bool
  pub history : List RuleHistoryEntry
  pub auth : RuleAuthState
  pub variables : RuleVariableState

pub record ResponseState : Type 0 where
  pub status : ℤ
  pub message : String
  pub headers : Assoc String
  pub variables : Assoc Value

pub record CacheState : Type 0 where
  pub key : String
  pub hit : Bool
  pub decision : String
  pub stored_at : ℕ
  pub expires_at : ℕ
  pub stored : Bool

pub record BackendPageState : Type 0 where
  pub url : String
  pub status : ℤ
  pub headers : Assoc String
  pub body : Value
  pub body_text : String
  pub accepted : Bool

pub record BackendState : Type 0 where
  pub requested : Bool
  pub status : ℤ
  pub headers : Assoc String
  pub body : Value
  pub body_text : String
  pub error : String
  pub accepted : Bool
  pub pages : List BackendPageState

pub record VariablesState : Type 0 where
  pub global : Assoc Value
  pub rules : Assoc (Assoc Value)
  pub environment : Assoc String
  pub secrets : Assoc String

pub record State : Type 0 where
  pub cache_key : String
  pub plan : Option ExecutionPlan
  pub endpoint : String
  pub correlation_id : String
  pub server : ServerState
  pub request : RequestState
  pub admission : AdmissionState
  pub forward : ForwardState
  pub rule : RuleState
  pub response : ResponseState
  pub cache : CacheState
  pub backend : BackendState
  pub variables : VariablesState

-- The parts of an http.Request that the program reads. A header or query parameter has a list of values.
pub record HttpRequest : Type 0 where
  pub method : String
  pub path : String
  pub host : String
  pub remote_addr : String
  pub headers : Assoc (List String)
  pub query : Assoc (List String)

-- The first value of every header or parameter that has one, under its name in lower case.
unfoldable pub first_values : Assoc (List String) → Assoc String → Assoc String
first_values [] out = out
first_values ((name, []) ∷ m) out = first_values m out
first_values ((name, value ∷ values) ∷ m) out = first_values m (put (to_lower name) value out)

-- NewState
unfoldable pub new_state : HttpRequest → String → String → String → State
unfolding first_values
new_state r endpoint cache_key correlation_id = record {
  cache_key = cache_key;
  plan = none;
  endpoint = endpoint;
  correlation_id = correlation_id;
  server = record { pipeline_ready = false; observed_at = 0 };
  request = record {
    method = r.method;
    path = r.path;
    host = r.host;
    headers = first_values r.headers [];
    query = first_values r.query [];
  };
  admission = record {
    authenticated = false;
    reason = "";
    captured_at = 0;
    client_ip = "";
    trusted_proxy = false;
    proxy_stripped = false;
    forwarded_for = "";
    forwarded = "";
    proxy_note = "";
    decision = "";
    allow = record { authorization = []; header = []; query = []; anonymous = false };
    credentials = [];
  };
  forward = record { headers = []; query = [] };
  rule = record {
    outcome = "";
    reason = "";
    executed = false;
    from_cache = false;
    evaluated_at = 0;
    should_execute = false;
    history = [];
    auth = record { selected = ""; input = []; forward = [] };
    variables = record { rule = []; local = []; exported = [] };
  };
  response = record { status = pos 0; message = ""; headers = []; variables = [] };
  cache = record {
    key = cache_key;
    hit = false;
    decision = "";
    stored_at = 0;
    expires_at = 0;
    stored = false;
  };
  backend = record {
    requested = false;
    status = pos 0;
    headers = [];
    body = Value.null;
    body_text = "";
    error = "";
    accepted = false;
    pages = [];
  };
  variables = record { global = []; rules = []; environment = []; secrets = [] };
}

-- SetPlan, ClearPlan
abbrev pub set_plan : ExecutionPlan → State → State
set_plan plan s = record s { plan = some plan }

abbrev pub clear_plan : State → State
clear_plan s = record s { plan = none }
