-- ===== src/Rulechain/Definitions.antt =====
-- internal/runtime/rulechain/agent.go and buildBackendDefinition of backend.go: from the specification of a
-- rule to the compiled one. The compilers of CEL, regexp and text/template come as arguments.

pub mod Validated
pub mod Backends
use pass_ctrl.Prelude.{
  String, Bool, false, not, ◌&&◌, ◌||◌, Option, none, some, List, [], ◌∷◌, ◌++◌, ◌==◌,
  if◌then◌else◌, ℤ, pos, leb_ℤ, int_eq, is_empty, Result, ok, err, ◌>>=◌, ◌>>◌, reject_if,
}
use pass_ctrl.Text.{◌+s◌, trim_space, to_lower, to_upper, contains, sort_strings}
use pass_ctrl.Assoc.{Assoc, get, keys, put}
use pass_ctrl.Rulechain.Types.{
  BackendDefinition, BackendHeaderMap, CacheConfigSpec, ConditionPrograms, Definition, Program,
  ResponseDefinition, ResponsesDefinition, Template, VariablesDefinition,
}
use pass_ctrl.Rulechain.Auth.{
  AuthDirectiveSpec, RegexParser, TemplateParser, compile_auth_directives, compile_inline, quoted,
  within,
}

pub record ConditionSpec : Type 0 where
  pub pass : List String
  pub fail : List String
  pub error : List String

pub record BackendPaginationSpec : Type 0 where
  pub kind : String
  pub max_pages : ℤ

pub record BackendDefinitionSpec : Type 0 where
  pub url : String
  pub method : String
  pub forward_proxy_headers : Bool
  pub headers : Assoc (Option String)
  pub query : Assoc (Option String)
  pub body : String
  pub body_file : String
  pub accepted : List ℤ
  pub pagination : BackendPaginationSpec

pub record ResponseSpec : Type 0 where
  pub status : ℤ
  pub body : String
  pub body_file : String
  pub variables : Assoc String

pub record ResponsesSpec : Type 0 where
  pub pass : ResponseSpec
  pub fail : ResponseSpec
  pub error : ResponseSpec

pub record VariablesSpec : Type 0 where
  pub variables : Assoc String

pub record DefinitionSpec : Type 0 where
  pub name : String
  pub description : String
  pub auth : List AuthDirectiveSpec
  pub conditions : ConditionSpec
  pub backend : BackendDefinitionSpec
  pub pass_message : String
  pub responses : ResponsesSpec
  pub variables : VariablesSpec
  pub fail_message : String
  pub error_message : String
  pub cache : CacheConfigSpec

-- Environment.Compile: the error for a source that it refuses.
abbrev pub CelCompiler : Type 0
CelCompiler = String → Option String

-- The parser of templates, where there is a renderer.
abbrev pub Renderer : Type 0
Renderer = Option TemplateParser

program_of : String → Option String → Result Program
program_of source none = ok (record { source = source })
program_of source (some e) = err ("compile condition " +s quoted source +s ": " +s e)

compile_program : CelCompiler → String → Result Program
unfolding program_of
compile_program compile source = program_of source (compile source)

-- compilePrograms
unfoldable pub compile_programs : CelCompiler → List String → Result (List Program)
unfolding compile_program
compile_programs compile [] = ok []
compile_programs compile (source ∷ expressions) =
    let rest = compile_programs compile expressions in
    if trim_space source == "" then rest else (do
      program ← compile_program compile (trim_space source)
      programs ← rest
      ok (program ∷ programs))

-- compileConditionPrograms
unfoldable pub compile_condition_programs : CelCompiler → ConditionSpec → Result ConditionPrograms
compile_condition_programs compile spec = do
  pass ← within "pass conditions" (compile_programs compile spec.pass)
  fail ← within "fail conditions" (compile_programs compile spec.fail)
  error ← within "error conditions" (compile_programs compile spec.error)
  ok (record { pass = pass; fail = fail; error = error })

-- compileResponseDefinition
unfoldable pub compile_response_definition : String → ResponseSpec → Result ResponseDefinition
compile_response_definition category spec = do
  reject_if (not (int_eq spec.status (pos 0)))
      ("rule responses no longer support status overrides (found " +s category +s ".status)")
  reject_if (not (trim_space spec.body == "") || not (trim_space spec.body_file == ""))
      ("rule responses no longer support body overrides (found " +s category +s ".body/bodyFile)")
  ok (record { exported_variables = spec.variables })

-- compileResponseDefinitions
unfoldable pub compile_response_definitions : ResponsesSpec → Result ResponsesDefinition
compile_response_definitions spec = do
  pass ← within "pass" (compile_response_definition "pass" spec.pass)
  fail ← within "fail" (compile_response_definition "fail" spec.fail)
  error ← within "error" (compile_response_definition "error" spec.error)
  ok (record { pass = pass; fail = fail; error = error })

-- compileVariableDefinitions
abbrev pub compile_variable_definitions : VariablesSpec → VariablesDefinition
compile_variable_definitions spec = record { variables = spec.variables }

-- Renderer.CompileInline, where there is a renderer
unfoldable pub compile_template : Renderer → String → String → Result (Option Template)
compile_template none name source = ok none
compile_template (some parser) name source = compile_inline parser name source

no_headers : BackendHeaderMap
no_headers = record { entries = []; templates = [] }

put_compiled : String → Result (Option Template) → Assoc Template → Assoc Template
put_compiled name (ok (some template)) out = put name template out
put_compiled name (ok none) out = out
put_compiled name (err e) out = out

add_template : Renderer → String → Option String → Assoc Template → Assoc Template
unfolding put_compiled
add_template renderer name none out = out
add_template renderer name (some value) out =
    if contains value "{{"
    then put_compiled name (compile_template renderer ("backend:" +s name) value) out
    else out

pub add_entry : Renderer → String → Option String → BackendHeaderMap → BackendHeaderMap
unfolding add_template
add_entry renderer key value out = if key == "" then out else record {
  entries = put key value out.entries;
  templates = add_template renderer key value out.templates;
}

compile_entries : Renderer → Assoc (Option String) → BackendHeaderMap → BackendHeaderMap
compile_entries renderer [] out = out
compile_entries renderer ((name, value) ∷ m) out =
    compile_entries renderer m (add_entry renderer (to_lower (trim_space name)) value out)

with_value : String → Option (Option String) → Assoc (Option String)
with_value name none = []
with_value name (some value) = (name, value) ∷ []

-- The entries of a configuration under these names.
entries_of : Assoc (Option String) → List String → Assoc (Option String)
unfolding with_value
entries_of config [] = []
entries_of config (name ∷ names) = with_value name (get name config) ++ entries_of config names

-- compileBackendHeaderMap, in the order of the names
unfoldable pub compile_backend_header_map : Renderer → Assoc (Option String) → BackendHeaderMap
unfolding compile_entries no_headers entries_of
compile_backend_header_map renderer config =
    compile_entries renderer (entries_of config (sort_strings (keys config))) no_headers

no_backend : BackendDefinition
unfolding no_headers
no_backend = record {
  url = "";
  method = "";
  forward_proxy_headers = false;
  headers = no_headers;
  query = no_headers;
  body = "";
  body_file = "";
  body_template = none;
  accepted = [];
  pagination = record { kind = ""; max_pages = pos 0 };
}

configured_backend : Renderer → BackendDefinitionSpec → BackendDefinition
configured_backend renderer spec =
    let method = to_upper (trim_space spec.method) in
    record {
      url = trim_space spec.url;
      method = if method == "" then "GET" else method;
      forward_proxy_headers = spec.forward_proxy_headers;
      headers = compile_backend_header_map renderer spec.headers;
      query = compile_backend_header_map renderer spec.query;
      body = spec.body;
      body_file = trim_space spec.body_file;
      body_template = none;
      accepted = if is_empty spec.accepted then pos 200 ∷ [] else spec.accepted;
      pagination = record {
        kind = to_lower (trim_space spec.pagination.kind);
        max_pages =
            if leb_ℤ spec.pagination.max_pages (pos 0) then pos 1 else spec.pagination.max_pages;
      };
    }

-- buildBackendDefinition
unfoldable pub build_backend_definition : Renderer → BackendDefinitionSpec → BackendDefinition
unfolding no_backend configured_backend
build_backend_definition renderer spec =
    if trim_space spec.url == "" then no_backend else configured_backend renderer spec

-- The template of the body that a backend is sent.
compile_body_template : Renderer → String → BackendDefinitionSpec → Result (Option Template)
compile_body_template renderer name spec =
    if not (trim_space spec.body == "")
    then within "backend body template"
        (compile_template renderer (name +s ":backend:body") spec.body)
    else if not (trim_space spec.body_file == "")
    then within "backend body file template compile"
        (compile_template renderer (name +s ":backend:bodyFile") spec.body_file)
    else ok none

module _ (cel : CelCompiler) (regex : RegexParser) (renderer : Renderer) where
  -- compileDefinition
  unfoldable pub compile_definition : DefinitionSpec → Result Definition
  unfolding compile_body_template
  compile_definition spec = do
    let rule_name = trim_space spec.name
    programs ← compile_condition_programs cel spec.conditions
    auth ← compile_auth_directives regex renderer rule_name spec.auth
    let backend = build_backend_definition renderer spec.backend
    responses ← within "responses" (compile_response_definitions spec.responses)
    let name = if rule_name == "" then "rule" else rule_name
    pass ←
        within "pass message template"
          (compile_template renderer (name +s ":pass") spec.pass_message)
    fail ←
        within "fail message template"
          (compile_template renderer (name +s ":fail") spec.fail_message)
    error ←
        within "error message template"
          (compile_template renderer (name +s ":error") spec.error_message)
    body ← compile_body_template renderer name spec.backend
    ok (record {
      name = rule_name;
      description = trim_space spec.description;
      auth = auth;
      conditions = programs;
      backend = record backend { body_template = body };
      pass_message = trim_space spec.pass_message;
      responses = responses;
      variables = compile_variable_definitions spec.variables;
      fail_message = trim_space spec.fail_message;
      error_message = trim_space spec.error_message;
      pass_template = pass;
      fail_template = fail;
      error_template = error;
      cache = spec.cache;
    })

  -- CompileDefinitions
  unfoldable pub compile_definitions : List DefinitionSpec → Result (List Definition)
  compile_definitions [] = ok []
  compile_definitions (spec ∷ specs) = do
    def ← within ("rule " +s spec.name) (compile_definition spec)
    defs ← compile_definitions specs
    ok (def ∷ defs)
