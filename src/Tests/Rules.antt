-- ===== src/Tests/Rules.antt =====
-- A visitor with a bearer token, and rules that ask for one.
use pass_ctrl.Prelude.{
  false, ℕ, ◌+◌, not, err, ◌≡◌, ◌↔◌, refl, true, none, some, [], ◌∷◌, ok, All, pos, inl, arith,
  eq_iff, if◌then◌else◌, ◌==◌,
}
use pass_ctrl.Text.{contains}
use pass_ctrl.Assoc.{get}
use pass_ctrl.Rulechain.Types.{Definition, AuthMatcher, AuthDirective, literal, regex}
use pass_ctrl.Pipeline.State.{AdmissionCredential, HttpRequest, State, new_state}
use pass_ctrl.Cache.Memory.{MemoryCache}
use pass_ctrl.Cache.Decision.{memory_decision_cache, memory_decision_cache_lem}
use pass_ctrl.Runtime.Engine.{TemplateEngine, RegexEngine}
use pass_ctrl.Runtime.RuleAuth.{extract_credentials, check_all_matchers}
use pass_ctrl.Runtime.RuleAuth.Extraction.{
  last_where, is_bearer, is_basic, is_header, is_query, extract_credentials-last,
}
use pass_ctrl.Runtime.RuleAuth.Matching.{IsSatisfied, check_all_matchers-IsSatisfied_iff}
use pass_ctrl.Runtime.RuleAuth.Forwarding.{clear_auth, prepare_rule_auth}
use pass_ctrl.Runtime.RuleAuth.Selection.{Outcome, prepare_rule_auth-Outcome}
use pass_ctrl.Runtime.Conditions.{Evaluator, decide}
use pass_ctrl.Runtime.Conditions.Decision.{IsUnopposed, IsSupported, decide-pass_iff}
use pass_ctrl.Runtime.BackendInteraction.{RenderedBackendRequest, Web, Walk, walk_pages}
use pass_ctrl.Value.{Value}
use pass_ctrl.Runtime.Variables.{HybridEvaluator, select_rule_response, set_outcome, finish_rule}
use pass_ctrl.Runtime.Variables.Exported.{Exports, finish_rule-Exports}
use pass_ctrl.Runtime.BackendInteraction.Pages.{IsWalk, walk_pages-IsWalk}
use pass_ctrl.Runtime.RuleCache.{
  RuleCacheEntry, EntryCodec, rule_cache_entry, lookup_rule_cache, store_rule_cache,
}
use pass_ctrl.Runtime.RuleCache.Storing.{lookup_rule_cache-store_rule_cache}

abbrev credential : AdmissionCredential
credential = record {
  kind = "bearer";
  name = "";
  value = "";
  token = "s3cret";
  username = "";
  password = "";
  source = "authorization";
}

abbrev tenant : AdmissionCredential
tenant = record credential { kind = "header"; name = "X-Tenant"; value = "acme"; token = "" }

abbrev bearer_matcher : AuthMatcher
bearer_matcher = record {
  kind = "bearer";
  name = "";
  match_name = "";
  value_matchers = literal "other" ∷ regex "3c" ∷ [];
  username_matchers = [];
  password_matchers = [];
}

abbrev tenant_matcher : AuthMatcher
tenant_matcher = record bearer_matcher {
  kind = "header";
  name = "X-Tenant";
  match_name = "x-tenant";
  value_matchers = [];
}

abbrev accepted_pair : AuthDirective
accepted_pair = record { matchers = bearer_matcher ∷ tenant_matcher ∷ []; forwards = [] }

abbrev http_request : HttpRequest
http_request = record {
  method = "GET";
  path = "/auth";
  host = "gate";
  remote_addr = "10.0.0.1:99";
  headers = ("X-Tenant", "acme" ∷ []) ∷ [];
  query = [];
}

abbrev visitor : State
visitor =
    let s = new_state http_request "main" "key" "1" in
    let admission = s.admission in
    record s { admission = record admission { credentials = credential ∷ tenant ∷ [] } }

abbrev render : TemplateEngine
render template s = ok template.source

abbrev matches_part : RegexEngine
matches_part pattern text = contains text pattern

prepare_rule_auth-Outcome_example :
    Outcome render matches_part visitor.admission.credentials
      (accepted_pair ∷ [])
      (clear_auth visitor)
      (prepare_rule_auth render matches_part (accepted_pair ∷ []) visitor).0
prepare_rule_auth-Outcome_example =
    prepare_rule_auth-Outcome render matches_part accepted_pair [] visitor

check_all_matchers-IsSatisfied_iff_example :
    (check_all_matchers matches_part
        (bearer_matcher ∷ tenant_matcher ∷ [])
        (extract_credentials (credential ∷ tenant ∷ []))
      ≡ true)
    ↔ All
        (IsSatisfied matches_part (credential ∷ tenant ∷ []))
        (bearer_matcher ∷ tenant_matcher ∷ [])
check_all_matchers-IsSatisfied_iff_example =
    check_all_matchers-IsSatisfied_iff matches_part (credential ∷ tenant ∷ [])
      (bearer_matcher ∷ tenant_matcher ∷ [])

extract_credentials-last_example :
    ((extract_credentials (credential ∷ tenant ∷ [])).bearer
      ≡ last_where is_bearer (credential ∷ tenant ∷ []))
    × ((extract_credentials (credential ∷ tenant ∷ [])).basic
        ≡ last_where is_basic (credential ∷ tenant ∷ []))
    × (get "x-tenant" (extract_credentials (credential ∷ tenant ∷ [])).headers
        ≡ last_where (is_header "x-tenant") (credential ∷ tenant ∷ []))
    × (get "x-tenant" (extract_credentials (credential ∷ tenant ∷ [])).query
        ≡ last_where (is_query "x-tenant") (credential ∷ tenant ∷ []))
extract_credentials-last_example = extract_credentials-last (credential ∷ tenant ∷ []) "x-tenant"

abbrev entry : RuleCacheEntry
entry = rule_cache_entry 5 "pass" "fine" [] (("x-user", "alice") ∷ []) (pos 100)

-- A codec for this entry alone.
abbrev codec : EntryCodec
codec = record {
  marshal = λ e. if e.outcome == "pass" then some "{}" else none;
  unmarshal = λ text. if text == "{}" then some entry else none;
}

abbrev cache : MemoryCache
cache = record { ttl = pos 7; entries = [] }

lookup_rule_cache-store_rule_cache_example :
    (lookup_rule_cache codec
      (some memory_decision_cache)
      50
      60
      "main|rule"
      (store_rule_cache codec
        (some memory_decision_cache)
        5
        6
        "main|rule"
        "pass"
        "fine"
        []
        (("x-user", "alice") ∷ [])
        (pos 100)
        cache).1).0
    ≡ some entry
lookup_rule_cache-store_rule_cache_example =
    lookup_rule_cache-store_rule_cache codec memory_decision_cache 5 6 "main|rule" "pass" "fine" []
      (("x-user", "alice") ∷ []) (pos 100) memory_decision_cache_lem "{}" 50 60 cache
      (ground (arith, eq_iff "main|rule" "")) (omega arith) (inl refl) (omega arith) (omega arith)
      (omega arith) refl refl

abbrev conditional : Definition
conditional = record {
  name = "lookup";
  description = "";
  auth = accepted_pair ∷ [];
  conditions = record {
    pass = record { source = "vars.user != ''" } ∷ [];
    fail = record { source = "backend.status == 403" } ∷ [];
    error = [];
  };
  backend = record {
    url = "https://api/users";
    method = "GET";
    forward_proxy_headers = false;
    headers = record { entries = []; templates = [] };
    query = record { entries = []; templates = [] };
    body = "";
    body_file = "";
    body_template = none;
    accepted = pos 200 ∷ [];
    pagination = record { kind = "link-header"; max_pages = pos 3 };
  };
  pass_message = "welcome";
  responses = record {
    pass = record { exported_variables = [] };
    fail = record { exported_variables = [] };
    error = record { exported_variables = [] };
  };
  variables = record { variables = [] };
  fail_message = "";
  error_message = "";
  pass_template = none;
  fail_template = none;
  error_template = none;
  cache = record {
    follow_cache_control = false;
    ttl = record { pass = ""; fail = ""; error = "" };
    strict = none;
    include_proxy_headers = none;
  };
}

-- An evaluator under which a program holds unless it is about the status.
abbrev holds_without_status : Evaluator
holds_without_status program = ok (not (contains program.source "status"))

decide-pass_iff_example : ((decide render conditional visitor holds_without_status).0 ≡ "pass") ↔ (
    IsUnopposed render conditional visitor holds_without_status
    × IsSupported render conditional visitor holds_without_status)
decide-pass_iff_example = decide-pass_iff render conditional visitor holds_without_status

-- A web in which every page links to the same next one. Its world counts the calls.
abbrev web : Web ℕ
web = record {
  parse_url = λ url. ok url;
  resolve = λ base link. some link;
  new_request = λ call. ok call;
  send = λ call n. (
    ok (record {
      url = call.url;
      status = pos 200;
      headers = ("Link", "<https://api/users?page=2>; rel=\"next\"" ∷ []) ∷ [];
      read = λ limit. ok "[]";
      close = ok tt;
    }),
    n + 1,
  );
  decode_json = λ text. err "no JSON";
}

abbrev rendered : RenderedBackendRequest
rendered = record { method = "GET"; url = "https://api/users"; headers = []; query = []; body = "" }

abbrev start : Walk ℕ
start = record { result = ok tt; visited = []; pages = []; state = visitor; world = 0 }

walk_pages-IsWalk_example :
    IsWalk 3 (walk_pages web rendered conditional.backend 3 "https://api/users" start)
walk_pages-IsWalk_example =
    walk_pages-IsWalk web rendered conditional.backend 3 3 "https://api/users" start tt
      (omega arith) (omega arith)

-- An evaluator that knows one expression.
abbrev evaluator : HybridEvaluator
evaluator expression ctx =
    if expression == "backend.body.name" then ok (Value.str "Alice") else err "unknown"

abbrev exporting : Definition
exporting =
    let responses = conditional.responses in
    record conditional {
      responses = record responses {
        pass = record { exported_variables = ("user", "backend.body.name") ∷ [] };
      };
    }

finish_rule-Exports_example :
    Exports
      (some evaluator)
      "lookup"
      (select_rule_response exporting "pass")
      (set_outcome "pass" "fine" visitor)
      (finish_rule (some evaluator) exporting "pass" "fine" visitor)
finish_rule-Exports_example = finish_rule-Exports (some evaluator) exporting "pass" "fine" visitor
