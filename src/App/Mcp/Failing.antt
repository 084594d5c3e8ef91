-- ===== src/App/Mcp/Failing.antt =====
-- app/mcp_server.go: the requests that the handlers refuse.
use claude_squad_ide.Base.{◌≡◌, true, ◌⊎◌, Text, codes, is_empty}
use claude_squad_ide.Session.Instance.World.{Reply, err}
use claude_squad_ide.App.Mcp.Server.{McpServer, get_indexer}
use claude_squad_ide.App.Mcp.Tools.{Indexer, Printer, Arguments, Answer, text, fault}
use claude_squad_ide.App.Mcp.Handlers.{
  Tool, read_lines_tool, code_search_tool, get_symbol_source_tool, get_file_symbols_tool,
  search_symbols_tool, get_symbol_tool, find_references_tool, get_call_graph_tool,
  index_status_tool, smart_lookup_tool,
}

-- Whether an answer is a failure.
abbrev pub Fails : Answer → Type 0
Fails (text t) = ⊥
Fails (fault e) = Unit {0}

module _ (p : Printer) (files : Text → Reply Text) (m : McpServer Indexer) (id : Text)
    (args : Arguments) where
  abbrev pub LacksText : Text → Type 0
  LacksText name = (e : Text) × (args.strings name ≡ err e)

  abbrev pub LacksNumber : Text → Type 0
  LacksNumber name = (e : Text) × (args.numbers name ≡ err e)

  -- An argument that a tool needs is not there: a query, a name, a symbol or a path, and for the
  -- lines of a file the first and the last as well. The status of the index needs none.
  abbrev pub LacksArgument : Tool → Type 0
  LacksArgument code_search_tool = LacksText (codes "query")
  LacksArgument get_symbol_source_tool = LacksText (codes "name")
  LacksArgument get_file_symbols_tool = LacksText (codes "path")
  LacksArgument read_lines_tool =
      LacksText (codes "path") ⊎ (LacksNumber (codes "start") ⊎ LacksNumber (codes "end"))
  LacksArgument search_symbols_tool = LacksText (codes "query")
  LacksArgument get_symbol_tool = LacksText (codes "name")
  LacksArgument find_references_tool = LacksText (codes "symbol")
  LacksArgument get_call_graph_tool = LacksText (codes "symbol")
  LacksArgument index_status_tool = ⊥
  LacksArgument smart_lookup_tool = LacksText (codes "query")

  -- What a request lacks: a session, an indexer for it, or an argument that the tool needs.
  abbrev pub Lacks : Tool → Type 0
  Lacks t =
      (is_empty id ≡ true) ⊎ (((e : Text) × (get_indexer p.quote m id ≡ err e)) ⊎ LacksArgument t)
