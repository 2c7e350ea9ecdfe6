-- ===== src/Service.antt =====
-- internal/runtime/runtime.go: the pipeline of an endpoint and the endpoints of a configuration, with the
-- functions of helpers.go and server_agent.go.
pub mod Keys
pub mod Serving
pub mod Rules
pub mod Endpoints
pub mod Pipelines
pub mod Requests
