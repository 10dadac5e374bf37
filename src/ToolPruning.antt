-- ===== src/ToolPruning.antt =====
-- The pruning of what the tools of other MCP servers return
-- (src/kimi_proxy/features/mcp_tool_pruning): the texts in the response to a `tools/call`, nested
-- JSON included, are pruned by the pruner's service, within a budget of nodes and of calls.
pub mod Metrics
pub mod Settings
pub mod Paths
pub mod Engine
pub mod Request
pub mod Respond
pub mod Client
