-- ===== src/Runtime.antt =====
-- internal/runtime: the agents that evaluate an endpoint's rules.
pub mod Engine
pub mod RuleAuth
pub mod RuleCache
pub mod Conditions
pub mod Variables
pub mod BackendInteraction
pub mod BackendRequest
pub mod RuleExecution
pub mod Admission
