-- ===== src/Service/Pipelines/Configured.antt =====
-- Every pipeline has an endpoint, through all its reloads.
use pass_ctrl.Prelude.{
  String, ◌≡◌, refl, sym, ◌∙◌, ap, false, none, some, [], ◌∷◌, Result, ok, >>=-eq-ok, ok-injective,
}
use pass_ctrl.Assoc.{Assoc, put}
use pass_ctrl.Config.Types.{EndpointConfig, RuleConfig}
use pass_ctrl.Config.Loader.{RuleBundle}
use pass_ctrl.Rulechain.Definitions.{compile_definitions}
use pass_ctrl.Service.Serving.{EndpointRuntime}
use pass_ctrl.Service.Endpoints.{Engines}
use pass_ctrl.Service.Pipelines.{
  Pipeline, PipelineOptions, choose_default, configure_endpoints, default_spec, fallback_runtime,
  install_fallback_endpoint, new_pipeline, reload,
}

-- One endpoint, which is the default, or several and no default.
pub data IsServing {W : Type 0} (p : Pipeline W) : Type 0 where
  single :
      {key : String} {endpoint : EndpointRuntime W}
      → p.endpoints ≡ (key, endpoint) ∷ []
      → p.default_endpoint ≡ some endpoint
      → IsServing p
  several :
      {first second : String × EndpointRuntime W} {others : Assoc (EndpointRuntime W)}
      → p.endpoints ≡ first ∷ second ∷ others
      → p.default_endpoint ≡ none
      → IsServing p

module _ {W Addr Prefix : Type 0} (engines : Engines W Addr Prefix) where
  -- A pipeline as it is built, and after any number of reloads.
  pub data IsReached : Pipeline W → Type 0 where
    built :
        {p : Pipeline W} (options : PipelineOptions)
        → new_pipeline engines options ≡ ok p
        → IsReached p
    reloaded :
        {p next : Pipeline W} (w after : W) (delete invalidate : String → W → Result (Unit {0}) × W)
        (bundle : RuleBundle)
        → IsReached p
        → reload engines delete invalidate bundle p w ≡ ok (next, after)
        → IsReached next

  install_fallback_endpoint-IsServing :
      (p next : Pipeline W)
      → p.endpoints ≡ []
      → install_fallback_endpoint engines p ≡ ok next
      → IsServing next
  unfolding install_fallback_endpoint put
  install_fallback_endpoint-IsServing p next e h =
      let bound =
        >>=-eq-ok
          (compile_definitions engines.cel engines.regex (some engines.parser) (default_spec ∷ []))
          _ h in
      let same = ok-injective bound.2 in
      single
        (ap (λ q. q.endpoints) (sym same) ∙ ap (put "default" (fallback_runtime engines bound.0)) e)
        (ap (λ q. q.default_endpoint) (sym same))

  choose_default-IsServing :
      (p next : Pipeline W) (endpoints : Assoc (EndpointRuntime W))
      → choose_default engines p endpoints ≡ ok next
      → IsServing next
  unfolding choose_default
  choose_default-IsServing p next [] h =
      install_fallback_endpoint-IsServing (record p { endpoints = [] }) next refl h
  choose_default-IsServing p next ((key, endpoint) ∷ []) h =
      let same = ok-injective h in
      single (ap (λ q. q.endpoints) (sym same)) (ap (λ q. q.default_endpoint) (sym same))
  choose_default-IsServing p next (first ∷ second ∷ endpoints) h =
      let same = ok-injective h in
      several (ap (λ q. q.endpoints) (sym same)) (ap (λ q. q.default_endpoint) (sym same))

  configure_endpoints-IsServing :
      (endpoints : Assoc EndpointConfig) (rules : Assoc RuleConfig) (p next : Pipeline W)
      → configure_endpoints engines endpoints rules p ≡ ok next
      → IsServing next
  unfolding configure_endpoints
  configure_endpoints-IsServing endpoints rules p next h =
      choose_default-IsServing
        (record p { endpoints = []; default_endpoint = none; using_fallback = false }) next _ h

  -- The endpoints of a pipeline stand whatever else is in it.
  with_sources :
      (p next : Pipeline W)
      → next.endpoints ≡ p.endpoints
      → next.default_endpoint ≡ p.default_endpoint
      → IsServing p
      → IsServing next
  with_sources p next e d (single a b) = single (e ∙ a) (d ∙ b)
  with_sources p next e d (several a b) = several (e ∙ a) (d ∙ b)

  -- Every pipeline that is built, and that reloads lead to, has an endpoint: a single one, which is then
  -- the default, or several and no default.
  pub IsReached-IsServing : (p : Pipeline W) → IsReached p → IsServing p
  unfolding new_pipeline reload
  IsReached-IsServing p (built options h) =
      let bound = >>=-eq-ok (configure_endpoints engines options.endpoints options.rules _) _ h in
      let same = ok-injective bound.2 in
      with_sources bound.0 p (ap (λ q. q.endpoints) (sym same))
        (ap (λ q. q.default_endpoint) (sym same))
        (configure_endpoints-IsServing options.endpoints options.rules _ bound.0 bound.1)
  IsReached-IsServing next (reloaded {p} w after delete invalidate bundle reached h) =
      let bound = >>=-eq-ok (configure_endpoints engines bundle.endpoints bundle.rules p) _ h in
      let same = ap (λ q. q.0) (ok-injective bound.2) in
      with_sources bound.0 next (ap (λ q. q.endpoints) (sym same))
        (ap (λ q. q.default_endpoint) (sym same))
        (configure_endpoints-IsServing bundle.endpoints bundle.rules p bound.0 bound.1)
