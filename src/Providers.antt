-- ===== src/Providers.antt =====
-- The language model providers of src/agentops/providers.py: the calls over the network with their
-- retries, the mock, and `generate_detailed`, which chooses between them.
pub mod Transport
pub mod Retries
pub mod Streams
pub mod Mock
pub mod Registry
pub mod Generate
pub mod Steps
