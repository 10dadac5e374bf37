-- ===== src/Gateway.antt =====
-- The MCP gateway: the masking of long answers (features/mcp/gateway.py), the breaker of loops of
-- calls (MCPCircuitBreaker of features/mcp/detector.py), and the endpoint that forwards JSON-RPC
-- requests to the local servers (api/routes/mcp_gateway.py).
pub mod Observe
pub mod Breaker
pub mod Upstream
pub mod Cache
pub mod Serve
