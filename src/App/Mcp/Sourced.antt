-- ===== src/App/Mcp/Sourced.antt =====
-- app/mcp_server.go: the source of a symbol, from the file or its lines.
use claude_squad_ide.App.Mcp.Tools.{Index}
