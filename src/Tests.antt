-- ===== src/Tests.antt =====
-- Concrete runs of the models, each theorem at an input where its hypotheses hold.
mod Rules
mod Chain
mod Backend
mod Caching
mod Configuration
mod Admission
mod Policies
mod Serving
mod Validated
