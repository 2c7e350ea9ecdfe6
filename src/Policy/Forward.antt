-- ===== src/Policy/Forward.antt =====
-- internal/runtime/forwardpolicy/agent.go: the headers of proxies that a backend may get to see.
use pass_ctrl.Prelude.{
  String, ◌≡◌, ◌≢◌, ◌⊎◌, Bool, true, not, ◌||◌, [], ◌∷◌, ◌==◌, if◌then◌else◌, Any,
}
use pass_ctrl.Text.{trim_space, has_prefix}
use pass_ctrl.Assoc.{Assoc, put}
use pass_ctrl.Pipeline.State.{AgentResult, HttpRequest, State, first_values}

pub record ForwardPolicyConfig : Type 0 where
  pub forward_proxy_headers : Bool

-- captureRequestHeaders
abbrev pub capture_request_headers : HttpRequest → Assoc String
capture_request_headers r = first_values r.headers []

is_proxy_header : String → Bool
is_proxy_header name = name == "forwarded" || has_prefix name "x-forwarded-"

add_proxy_headers : Assoc String → Assoc String → Assoc String
unfolding is_proxy_header
add_proxy_headers [] out = out
add_proxy_headers ((name, value) ∷ incoming) out =
    add_proxy_headers incoming
      (if not (is_proxy_header name) || trim_space value == "" then out else put name value out)

-- Execute
unfoldable pub execute_forward_policy :
    ForwardPolicyConfig → HttpRequest → State → AgentResult × State
unfolding add_proxy_headers
execute_forward_policy config r s = (
  record { name = "forward_request_policy"; status = "ready"; details = "" },
  record s {
    forward = record {
      headers =
          if config.forward_proxy_headers
          then add_proxy_headers (capture_request_headers r) []
          else [];
      query = [];
    };
  },
)

-- A header of a proxy that the request has, with its value.
abbrev pub IsProxyHeader : Assoc String → String × String → Type 0
IsProxyHeader incoming entry =
    ((entry.0 ≡ "forwarded") ⊎ (has_prefix entry.0 "x-forwarded-" ≡ true))
    × (trim_space entry.1 ≢ "")
    × Any (λ other. other ≡ entry) incoming
