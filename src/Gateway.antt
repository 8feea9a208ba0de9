-- ===== src/Gateway.antt =====
-- gateway/research_gateway: the research gateway.
pub mod Jobs
mod Tests
