-- ===== src/Tests/Backend.antt =====
-- A request to a backend.
use pass_ctrl.Prelude.{◌≡◌, refl, String, none, some, List, [], ◌∷◌, Result, ok, err}
use pass_ctrl.Assoc.{Assoc, get, put}
use pass_ctrl.Rulechain.Types.{Template, BackendHeaderMap}
use pass_ctrl.Runtime.RuleAuth.{RuleAuthForward, no_forward}
use pass_ctrl.Runtime.RuleAuth.Extraction.{or_else}
use pass_ctrl.Runtime.BackendRequest.{Outgoing, apply_auth_forward, apply_auth_forwards}
use pass_ctrl.Runtime.BackendRequest.Forwarded.{last_header, get-apply_auth_forwards}

abbrev engine : Template → Result String
engine template = err "no template"

abbrev configured : BackendHeaderMap
configured = record {
  entries = ("X-Tenant", none) ∷ ("accept", some " json ") ∷ [];
  templates = [];
}

abbrev request_headers : Assoc String
request_headers = ("x-tenant", "acme") ∷ ("cookie", "id=1") ∷ []

abbrev forwards : List RuleAuthForward
forwards =
    record no_forward { kind = "bearer"; token = "s3cret" }
    ∷ record no_forward { kind = "query"; name = "user"; value = "alice" }
    ∷ []

abbrev before : Outgoing
before = record { headers = ("accept", "json") ∷ []; query = [] }

abbrev after : Outgoing
after = record {
  headers = ("accept", "json") ∷ ("Authorization", "Bearer s3cret") ∷ [];
  query = ("user", "alice") ∷ [];
}

applied : apply_auth_forwards forwards before ≡ ok after
unfolding apply_auth_forwards apply_auth_forward put
applied = refl

get-apply_auth_forwards_example :
    get "Authorization" after.headers
    ≡ or_else (last_header "Authorization" forwards) (get "Authorization" before.headers)
get-apply_auth_forwards_example =
    get-apply_auth_forwards "Authorization" forwards before after applied
