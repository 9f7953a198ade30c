-- ===== src/Llm.antt =====
-- llm_client.py: circuit breakers, the routing of a model to its providers, and the failover chain.
pub mod Circuits
pub mod Routing
pub mod Failover
pub mod Stream
