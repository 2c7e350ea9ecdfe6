-- ===== src/Service/Requests/Chosen.antt =====
-- Which endpoint a request gets.
use pass_ctrl.Prelude.{
  String, ◌≡◌, ◌≢◌, ◌⊎◌, arith, eq_iff, Any, sym, ◌∙◌, ap, false, none, some, ◌==◌, inl, inr,
  is_empty, Bool-cases, Option-cases, pos,
}
use mathlib.Core.Option.{some-injective}
use pass_ctrl.Text.{◌+s◌, trim_space, to_lower}
use pass_ctrl.Text.Trimmed.{trim_space_idem}
use pass_ctrl.Http.{header_get, query_get}
use pass_ctrl.Assoc.{get}
use pass_ctrl.Pipeline.State.{HttpRequest}
use pass_ctrl.Rulechain.Auth.{quoted}
use pass_ctrl.Service.Serving.{EndpointRuntime}
use pass_ctrl.Service.Pipelines.{Pipeline}
use pass_ctrl.Service.Pipelines.Configured.{IsServing, single, several}
use pass_ctrl.Service.Requests.{
  Choice, endpoint_for_request, found_or, lookup_endpoint, named_endpoint, not_found,
}

-- The name that a request gives, without white space around it: the route's hint where that is not
-- blank, or else its query parameter, or else its header.
pub data IsNamed (hint : String) (r : HttpRequest) : String → Type 0 where
  by_hint : trim_space hint ≢ "" → IsNamed hint r (trim_space hint)
  by_query :
      trim_space hint ≡ ""
      → trim_space (query_get "endpoint" r.query) ≢ ""
      → IsNamed hint r (trim_space (query_get "endpoint" r.query))
  by_header :
      trim_space hint ≡ ""
      → trim_space (query_get "endpoint" r.query) ≡ ""
      → trim_space (header_get "X-PassCtrl-Endpoint" r.headers) ≢ ""
      → IsNamed hint r (trim_space (header_get "X-PassCtrl-Endpoint" r.headers))

-- A request that gives no name.
abbrev pub IsUnnamed : String → HttpRequest → Type 0
IsUnnamed hint r =
    (trim_space hint ≡ "")
    × (trim_space (query_get "endpoint" r.query) ≡ "")
    × (trim_space (header_get "X-PassCtrl-Endpoint" r.headers) ≡ "")

-- What a request gets: the endpoint of its name, or a refusal where there is none of this name; and, where
-- it gives no name, the default, which is an endpoint, or a refusal where there is no default.
pub data IsChosen {W : Type 0} (p : Pipeline W) (hint : String) (r : HttpRequest)
    : Choice W → Type 0 where
  served :
      {name : String} {endpoint : EndpointRuntime W}
      → IsNamed hint r name
      → get (to_lower name) p.endpoints ≡ some endpoint
      → IsChosen p hint r (inr endpoint)
  by_default :
      {endpoint : EndpointRuntime W}
      → IsUnnamed hint r
      → p.default_endpoint ≡ some endpoint
      → Any (λ entry. entry.1 ≡ endpoint) p.endpoints
      → IsChosen p hint r (inr endpoint)
  unknown :
      {name : String}
      → IsNamed hint r name
      → get (to_lower name) p.endpoints ≡ none
      → IsChosen p hint r (inl (pos 404, "endpoint " +s quoted name +s " not found"))
  unnamed :
      IsUnnamed hint r
      → p.default_endpoint ≡ none
      → IsChosen p hint r (inl (pos 400, "endpoint parameter required"))

default-Any :
    {W : Type 0} (p : Pipeline W) (endpoint : EndpointRuntime W)
    → IsServing p
    → p.default_endpoint ≡ some endpoint
    → Any (λ entry. entry.1 ≡ endpoint) p.endpoints
default-Any p endpoint (single {key} {endpoint = only} es d) h =
    rw es (inl (some-injective only endpoint (sym d ∙ h)))
default-Any p endpoint (several es d) h = cc

some_endpoint : {W : Type 0} (p : Pipeline W) → IsServing p → is_empty p.endpoints ≡ false
some_endpoint p (single es d) = ap is_empty es
some_endpoint p (several es d) = ap is_empty es

-- A text without white space around it, which is not empty.
abbrev IsTrimmed : String → Type 0
IsTrimmed name = (trim_space name ≡ name) × (name ≢ "")

nonempty : (s : String) → (s == "") ≡ false → s ≢ ""
nonempty s e p = ground (arith, eq_iff s "")

named_endpoint-cases :
    (hint : String) (r : HttpRequest)
    → trim_space hint ≡ ""
    → ((named_endpoint r ≡ "") × IsUnnamed hint r)
      ⊎ (IsTrimmed (named_endpoint r) × IsNamed hint r (named_endpoint r))
unfolding named_endpoint
named_endpoint-cases hint r blank =
    let query = query_get "endpoint" r.query in
    let header = header_get "X-PassCtrl-Endpoint" r.headers in
    elim (Bool-cases (trim_space query == "")) [
      | inr q ↦
          let filled = nonempty (trim_space query) q in
          rw q (inr ((trim_space_idem query, filled), by_query blank filled))
      | inl q ↦
          let empty = (eq_iff (trim_space query) "").0 q in
          rw q (elim (Bool-cases (trim_space header == "")) [
            | inl e ↦
                let none_given = (eq_iff (trim_space header) "").0 e in
                inl (none_given, (blank, empty, none_given))
            | inr e ↦
                let filled = nonempty (trim_space header) e in
                inr ((trim_space_idem header, filled), by_header blank empty filled)
          ])
    ]

module _ {W : Type 0} (p : Pipeline W) (hint : String) (r : HttpRequest) where
  known_or_not :
      (name : String)
      → IsTrimmed name
      → IsNamed hint r name
      → IsChosen p hint r (found_or (not_found name) (lookup_endpoint p.endpoints name))
  unfolding lookup_endpoint found_or not_found
  known_or_not name trimmed given =
      let filled : (name == "") ≡ false = ground (arith, eq_iff name "", trimmed.1) in
      rw (trimmed.0, filled)
        (elim (Option-cases (get (to_lower name) p.endpoints)) [
          | inl n ↦ rw n (unknown given n)
          | inr f ↦ rw f.1 (served given f.1)
        ])

  default_or_not :
      IsUnnamed hint r
      → IsServing p
      → IsChosen p hint r (found_or (pos 400, "endpoint parameter required") p.default_endpoint)
  unfolding found_or
  default_or_not none_given serving = elim (Option-cases p.default_endpoint) [
    | inl n ↦ simp n (unnamed none_given n)
    | inr f ↦ simp f.1 (by_default none_given f.1 (default-Any p f.0 serving f.1))
  ]

  -- A request to a pipeline that has a single endpoint as its default, or several and no default, gets
  -- the endpoint whose key is the name that it gives (in the hint of its route, the query or a header, in
  -- this order) in lower case, or 404 where there is none; and where it gives no name, the default, which
  -- is one of the endpoints, or 400 where there is none. It never fails for want of endpoints.
  pub endpoint_for_request-IsChosen :
      IsServing p → IsChosen p hint r (endpoint_for_request p hint r)
  unfolding endpoint_for_request
  endpoint_for_request-IsChosen serving = elim (Bool-cases (trim_space hint == "")) [
    | inr e ↦
        let filled = nonempty (trim_space hint) e in
        rw e (known_or_not (trim_space hint) (trim_space_idem hint, filled) (by_hint filled))
    | inl e ↦
        rw (e, some_endpoint p serving)
          (elim (named_endpoint-cases hint r ((eq_iff (trim_space hint) "").0 e)) [
            | inl n ↦
                (let same = (eq_iff (named_endpoint r) "").1 n.0 in
                  rw same (default_or_not n.1 serving))
            | inr n ↦
                (let differs : (named_endpoint r == "") ≡ false =
                    ground (arith, eq_iff (named_endpoint r) "", n.0.1) in
                  rw differs (known_or_not (named_endpoint r) n.0 n.1))
          ])
  ]
