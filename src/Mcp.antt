-- ===== src/Mcp.antt =====
-- The MCP gateway's workflow tracking, pkg/mcp.
pub mod Workflow
