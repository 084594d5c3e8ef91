-- ===== src/App/Mcp/Handlers.antt =====
-- app/mcp_server.go: the handlers, which read a request and find the index of its session.
use claude_squad_ide.Base.{
  ℕ, [], ◌++◌, Option, none, some, Text, codes, is_empty, ltb, if◌then◌else◌,
}
use claude_squad_ide.Session.Instance.World.{Reply, ok, err}
use claude_squad_ide.Ssh.HostManager.{ℤ, pos, negsuc}
use claude_squad_ide.App.Mcp.Server.{McpServer, get_indexer}
use claude_squad_ide.App.Mcp.Tools.{
  Indexer, Printer, Arguments, Answer, fault, positive_or, at_least_one, code_search, file_outline,
  search_symbols, find_callers, find_callees, index_status, smart_lookup,
}
use claude_squad_ide.App.Mcp.Tools.Reading.{symbol_source, read_lines, get_symbol}

-- The handlers; those of read_lines, search_symbols and get_symbol are not registered as tools.
pub data Tool : Type 0 where
  code_search_tool get_symbol_source_tool get_file_symbols_tool read_lines_tool : Tool
  search_symbols_tool get_symbol_tool find_references_tool get_call_graph_tool : Tool
  index_status_tool smart_lookup_tool : Tool

-- The argument that a handler reads first, if it has any.
abbrev pub required : Tool → Option Text
required code_search_tool = some (codes "query")
required get_symbol_source_tool = some (codes "name")
required get_file_symbols_tool = some (codes "path")
required read_lines_tool = some (codes "path")
required search_symbols_tool = some (codes "query")
required get_symbol_tool = some (codes "name")
required find_references_tool = some (codes "symbol")
required get_call_graph_tool = some (codes "symbol")
required index_status_tool = none
required smart_lookup_tool = some (codes "query")

abbrev pub no_session : Tool → Text
no_session code_search_tool = codes "session ID not found in request"
no_session get_file_symbols_tool = codes "session ID not found in request"
no_session read_lines_tool = codes "session ID not found in request"
no_session search_symbols_tool = codes "session ID not found in request"
no_session _ = codes "session ID not found"

abbrev pub invalid : Text → Answer
invalid e = fault (codes "invalid argument: " ++ e)

abbrev pub end_from : ℕ → ℤ → Option ℕ
end_from start (negsuc n) = none
end_from start (pos end) = if ltb end start then none else some end

abbrev pub with_reply {ℓ} : {A : Type ℓ} → (Text → Answer) → Reply A → (A → Answer) → Answer
with_reply failed (err e) next = failed e
with_reply failed (ok a) next = next a

module _ (p : Printer) (files : Text → Reply Text) (m : McpServer Indexer) (id : Text)
    (args : Arguments) where
  abbrev pub asked : Option Text → (Text → Answer) → Answer
  asked none next = next []
  asked (some name) next = with_reply invalid (args.strings name) next

  abbrev pub with_indexer : (Indexer → Answer) → Answer
  with_indexer next = with_reply fault (get_indexer p.quote m id) next

  -- The limits of read_lines are read before the indexer is looked for.
  abbrev pub with_end : Text → ℕ → Option ℕ → Answer
  with_end path start none = fault (codes "end must be >= start")
  with_end path start (some end) = with_indexer (read_lines p files path start end)

  abbrev pub handle_read_lines : Text → Answer
  handle_read_lines path = with_reply invalid (args.numbers (codes "start")) λ s.
      with_reply invalid (args.numbers (codes "end"))
        λ e. with_end path (at_least_one s) (end_from (at_least_one s) e)

  -- What follows once the first argument is read.
  unfoldable pub handle_with : Tool → Text → Answer
  unfolding get_indexer
  handle_with code_search_tool a =
      with_indexer (code_search p a (positive_or 20 (args.numbers (codes "limit"))))
  handle_with get_symbol_source_tool a = with_indexer (symbol_source p files a)
  handle_with get_file_symbols_tool a = with_indexer (file_outline p a)
  handle_with read_lines_tool a = handle_read_lines a
  handle_with search_symbols_tool a =
      with_indexer (search_symbols p a (positive_or 50 (args.numbers (codes "limit"))))
  handle_with get_symbol_tool a = with_indexer (get_symbol p files a args.signature_only)
  handle_with find_references_tool a = with_indexer (find_callers p a)
  handle_with get_call_graph_tool a = with_indexer (find_callees p a)
  handle_with index_status_tool a = with_indexer (index_status p)
  handle_with smart_lookup_tool a =
      with_indexer (smart_lookup p a (positive_or 2000 (args.numbers (codes "max_tokens"))))

  unfoldable pub handle : Tool → Answer
  unfolding handle_with
  handle t = if is_empty id then fault (no_session t) else asked (required t) (handle_with t)
