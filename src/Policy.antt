-- ===== src/Policy.antt =====
-- The agents of internal/runtime around the rules: what is forwarded, the variables of an endpoint, the
-- response, and the result cache.
pub mod Forward
pub mod EndpointVariables
pub mod Response
pub mod ResultCaching
