-- ===== src/Lib.antt =====
-- PassCtrl (github.com/l0p7/passctrl) decides, for a reverse proxy in front of it, whether a request may
-- pass. A configuration names endpoints and rules. For each request an endpoint runs its agents on one
-- shared state: admission collects credentials, the rule chain evaluates the endpoint's rules one after
-- the other, and the response policy answers. A rule chooses credentials, asks its backend, evaluates its
-- conditions and keeps its result in a decision cache.
--
-- Which file models which part:
-- - Prelude, Text, Assoc, Value, Http: Go's built-in types and the functions of `strings`, `sort`, `fmt`,
--   encoding/base64 (Text/Decoding), and of http.Header and url.Values that the program calls. Strings
--   are sequences of code points, so that bytes that are no UTF-8 count as U+FFFD where the code keeps
--   them (the decoded credentials of admission); letter case is that of ASCII, and EqualFold is exact where
--   one of the texts is ASCII. Maps are association lists.
-- - Config/Types: internal/config/types.go, its types. Config/Loader: internal/config/rules_loader.go,
--   from the decoded documents to the bundle (ruleAggregator, buildRuleBundle). Config/Constraints and
--   Config/Validation: internal/config/types.go, ParseValueConstraint and Validate with all its checks.
-- - Cache/Duration, Cache/Control, Cache/Ttl: internal/runtime/cache/cache_control.go and ttl.go, from a
--   Cache-Control header and the settings to a time to live; durations are int64 nanoseconds, with the
--   wrap-around of their product written out.
-- - Cache/Entry, Cache/Decision, Cache/Memory: internal/runtime/cache/decision_cache.go and memory.go. A
--   method reads the clock once; the reading is an argument. The mutex makes each method one step.
-- - Cache/Descriptor: internal/runtime/cache/descriptor.go, the hashes of cache keys.
-- - Rulechain: internal/runtime/rulechain, the compiled rules, the compiler of authentication directives
--   (auth.go), of a whole definition (Definitions, agent.go) with its backend, the agent that plans the
--   rules (Agent), and what a backend is sent, accepts and links to (backend.go).
-- - Pipeline/State: internal/runtime/pipeline/state.go.
-- - Runtime/Admission: internal/runtime/admission/agent.go. Forwarded reads the chains of the two headers,
--   Proxy checks them and changes the request's headers with the state (a Visit has both), Credentials
--   collects, Failure renders the refusal, and Execute composes them.
-- - Runtime/RuleAuth: internal/runtime/rule_execution_agent.go, prepareRuleAuth and what it calls.
-- - Runtime/Conditions: the same file, evaluateProgramList, ruleMessage, and the part of evaluateRule from
--   the conditions on.
-- - Runtime/Variables: the same file, evaluateRuleVariables, evaluateExportedVariables and finishRule.
-- - Runtime/BackendRequest: the same file, renderBackendRequest and applyAuthForwards.
-- - Runtime/RuleExecution: the same file, evaluateRule with the rule cache around it, and Execute. Its
--   parts follow the calls: each is the code behind one call, on the call's result.
-- - Runtime/BackendInteraction: internal/runtime/backend_interaction_agent.go. The loop recurses on the
--   rounds that are left, which the code's own bound counts down.
-- - Runtime/RuleCache: internal/runtime/rule_cache.go, over the DecisionCache interface.
-- - Policy: internal/runtime/forwardpolicy, endpointvars, responsepolicy and resultcaching, an agent each.
-- - Service: internal/runtime/runtime.go with helpers.go and server_agent.go. Keys are the cache keys; Serving
--   runs an endpoint's agents on a request and answers; Rules and Endpoints build the agents from the
--   configuration; Pipelines builds a pipeline and reloads it; Requests chooses the endpoint of a request
--   and serves it. The world W that the agents pass on has the decision cache, the network and the clock.
-- - Tests: each theorem at a concrete input.
--
-- Parameters, for code that is not the program's: the engines of CEL, text/template and regexp with their
-- compilers (known by what they answer), encoding/json, the parsing of addresses by net/url and net/netip,
-- the digest of a cache key (SHA-256), the random identifier of a request, and the HTTP client. A clock's
-- reading is an argument, or comes from the world. A panic is an error. There is always a renderer of
-- templates in a pipeline; text that fmt writes with %q is written between quotes without escapes.
--
-- Not modelled: Redis, the engines of internal/expr and internal/templates, and instrumentation, logging,
-- metrics, the HTTP server, the reading and watching of files, and start-up, which only call libraries; of
-- the pipeline, the JSON that the health and explain pages write; of the state, the contexts that templates
-- and CEL see, which copy it. The order in which Go's maps are walked is that of the association lists.
pub mod Prelude
pub mod Text
pub mod Assoc
pub mod Http
pub mod Value
pub mod Cache
pub mod Config
pub mod Rulechain
pub mod Pipeline
pub mod Runtime
pub mod Policy
pub mod Service
pub mod Tests
