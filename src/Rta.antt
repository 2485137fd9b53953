-- ===== src/Rta.antt =====
-- Real time authorization: src/rta and include/rta.
pub mod Crypto
pub mod Supernode
pub mod SupernodeList
pub mod Examples
pub mod ListExamples
