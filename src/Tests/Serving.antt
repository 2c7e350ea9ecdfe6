-- ===== src/Tests/Serving.antt =====
-- Pipelines of one endpoint, and of none.
use pass_ctrl.Prelude.{ℕ, String, ◌≡◌, refl, true, false, none, [], ◌∷◌, pos, Result, ok, err}
use pass_ctrl.Text.{trim_space, to_lower}
use pass_ctrl.Assoc.{put}
use pass_ctrl.Cache.Memory.{MemoryCache, lookup}
use pass_ctrl.Config.Loader.{RuleBundle}
use pass_ctrl.Runtime.RuleExecution.{RuleExecutionAgent}
use pass_ctrl.Service.Keys.{derive_cache_key}
use pass_ctrl.Service.Endpoints.{Engines, build_endpoint_runtime, select_rules}
use pass_ctrl.Service.Rules.{compile_configured_rules}
use pass_ctrl.Service.Pipelines.{
  Pipeline, PipelineOptions, configure_endpoints, new_pipeline, reload,
}
use pass_ctrl.Service.Pipelines.Configured.{IsReached, IsReached-IsServing, IsServing}
use pass_ctrl.Service.Requests.{endpoint_for_request}
use pass_ctrl.Service.Requests.Chosen.{IsChosen, endpoint_for_request-IsChosen}
use pass_ctrl.Service.Pipelines.Reloaded.{delete_memory, invalidate_memory, reload-lookup}
use pass_ctrl.Tests.Admission.{call, gate, lan}
use pass_ctrl.Tests.Configuration.{endpoint}

-- An agent for any world, with a clock that stands.
abbrev still : (W : Type 0) → RuleExecutionAgent W
still W = record {
  render = λ template s. ok template.source;
  regex = λ pattern text. true;
  files = λ path. none;
  eval = λ s now program. ok true;
  evaluator = none;
  web = none;
  encode = λ value. "";
  codec = record { marshal = λ e. none; unmarshal = λ text. none };
  cache = none;
  server_max_ttl = pos 0;
  correlation_header = "";
  clock = λ w. (5, w);
}

abbrev engines : (W : Type 0) → Engines W String String
engines W = record {
  network = lan;
  parser = λ name source. none;
  compile_file = λ file. ok none;
  cel = λ source. none;
  regex = λ pattern. none;
  evaluator = err "no evaluator";
  executor = still W;
}

abbrev setup : PipelineOptions
setup = record {
  cache_epoch = pos 0;
  cache_key_salt = "salt";
  cache_namespace = "";
  endpoints = ("main", record endpoint { rules = [] }) ∷ [];
  rules = [];
  rule_sources = [];
  skipped_definitions = [];
  correlation_header = "X-Request-ID";
  loaded_environment = [];
  loaded_secrets = [];
}

abbrev blank : {W : Type 0} → Pipeline W
blank = record {
  keys = record { namespace = "ns"; epoch = 1; salt = "salt" };
  correlation_header = "";
  environment = [];
  secrets = [];
  endpoints = [];
  default_endpoint = none;
  using_fallback = false;
  rule_sources = [];
  skipped = [];
}

-- The pipeline of a result, or a blank one.
built_or_blank : {W : Type 0} → Result (Pipeline W) → Pipeline W
built_or_blank (ok p) = p
built_or_blank (err e) = blank

first_pipeline : Pipeline ℕ
first_pipeline = built_or_blank (new_pipeline (engines ℕ) setup)

first-IsReached : IsReached (engines ℕ) first_pipeline
unfolding first_pipeline built_or_blank new_pipeline configure_endpoints compile_configured_rules
    build_endpoint_runtime select_rules trim_space put to_lower
first-IsReached = IsReached.built setup refl

IsReached-IsServing_example : IsServing first_pipeline
IsReached-IsServing_example = IsReached-IsServing (engines ℕ) first_pipeline first-IsReached

endpoint_for_request-IsChosen_example :
    IsChosen first_pipeline "Main" call (endpoint_for_request first_pipeline "Main" call)
endpoint_for_request-IsChosen_example =
    endpoint_for_request-IsChosen first_pipeline "Main" call
      (IsReached-IsServing (engines ℕ) first_pipeline first-IsReached)

abbrev cached : MemoryCache
cached = record { ttl = pos 100; entries = [] }

abbrev update : RuleBundle
update = record {
  endpoints = ("main", record endpoint { rules = [] }) ∷ [];
  rules = [];
  sources = "rules.yaml" ∷ [];
  skipped = [];
}

second_cache : Result (Pipeline MemoryCache × MemoryCache) → MemoryCache
second_cache (ok (p, c)) = c
second_cache (err e) = cached

second_pipeline : Result (Pipeline MemoryCache × MemoryCache) → Pipeline MemoryCache
second_pipeline (ok (p, c)) = p
second_pipeline (err e) = blank

abbrev reloading : Result (Pipeline MemoryCache × MemoryCache)
reloading = reload (engines MemoryCache) delete_memory invalidate_memory update blank cached

reloading-ok : reloading ≡ ok (second_pipeline reloading, second_cache reloading)
unfolding second_pipeline second_cache reload configure_endpoints compile_configured_rules
    build_endpoint_runtime select_rules trim_space put to_lower
reloading-ok = refl

reload-lookup_example :
    (lookup 9
      (derive_cache_key (λ text. text) (second_pipeline reloading).keys call "main" gate.config)
      (second_cache reloading)).0
    ≡ none
reload-lookup_example =
    reload-lookup (engines MemoryCache) (λ text. text) update blank (second_pipeline reloading)
      cached (second_cache reloading) call "main" gate.config 9 reloading-ok refl
