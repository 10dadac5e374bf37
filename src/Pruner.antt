-- ===== src/Pruner.antt =====
-- The pruner (src/kimi_proxy/features/mcp_pruner): which lines of a text are kept, how the pruned
-- text is rebuilt with its markers, and the store behind `recover_text`.
pub mod Target
pub mod Select
pub mod Thin
pub mod Rank
pub mod Rebuild
pub mod Store
pub mod Recover
pub mod Cache
pub mod Backends
pub mod Answer
pub mod Serve
pub mod Rpc
