-- ===== src/Rulechain/Types.antt =====
-- The compiled rules of internal/runtime/rulechain. A compiled template and a compiled CEL program are
-- known by their sources: what they compute is up to the engines, which are not part of the program.
use pass_ctrl.Prelude.{String, Bool, Option, List, ℤ}
use pass_ctrl.Assoc.{Assoc}

pub record Template : Type 0 where
  pub source : String

pub record Program : Type 0 where
  pub source : String

-- A literal text, or a regular expression by its pattern.
pub data ValueMatcher : Type 0 where
  literal : String → ValueMatcher
  regex : String → ValueMatcher

pub record AuthMatcher : Type 0 where
  pub kind : String
  pub name : String
  pub match_name : String
  pub value_matchers : List ValueMatcher
  pub username_matchers : List ValueMatcher
  pub password_matchers : List ValueMatcher

pub record AuthForwardDefinition : Type 0 where
  pub kind : String
  pub name : String
  pub value : String
  pub token : String
  pub user : String
  pub password : String
  pub name_template : Option Template
  pub value_template : Option Template
  pub token_template : Option Template
  pub user_template : Option Template
  pub password_template : Option Template

pub record AuthDirective : Type 0 where
  pub matchers : List AuthMatcher
  pub forwards : List AuthForwardDefinition

pub record ConditionPrograms : Type 0 where
  pub pass : List Program
  pub fail : List Program
  pub error : List Program

-- backendHeaderMap: `none` copies the value from the request
pub record BackendHeaderMap : Type 0 where
  pub entries : Assoc (Option String)
  pub templates : Assoc Template

pub record BackendPagination : Type 0 where
  pub kind : String
  pub max_pages : ℤ

pub record BackendDefinition : Type 0 where
  pub url : String
  pub method : String
  pub forward_proxy_headers : Bool
  pub headers : BackendHeaderMap
  pub query : BackendHeaderMap
  pub body : String
  pub body_file : String
  pub body_template : Option Template
  pub accepted : List ℤ
  pub pagination : BackendPagination

pub record ResponseDefinition : Type 0 where
  pub exported_variables : Assoc String

pub record ResponsesDefinition : Type 0 where
  pub pass : ResponseDefinition
  pub fail : ResponseDefinition
  pub error : ResponseDefinition

pub record VariablesDefinition : Type 0 where
  pub variables : Assoc String

pub record CacheTtlSpec : Type 0 where
  pub pass : String
  pub fail : String
  pub error : String

pub record CacheConfigSpec : Type 0 where
  pub follow_cache_control : Bool
  pub ttl : CacheTtlSpec
  pub strict : Option Bool
  pub include_proxy_headers : Option Bool

pub record Definition : Type 0 where
  pub name : String
  pub description : String
  pub auth : List AuthDirective
  pub conditions : ConditionPrograms
  pub backend : BackendDefinition
  pub pass_message : String
  pub responses : ResponsesDefinition
  pub variables : VariablesDefinition
  pub fail_message : String
  pub error_message : String
  pub pass_template : Option Template
  pub fail_template : Option Template
  pub error_template : Option Template
  pub cache : CacheConfigSpec

pub record ExecutionPlan : Type 0 where
  pub rules : List Definition
