-- ===== src/App/Mcp/Tests.antt =====
-- A worktree with one file, read through a server with one session.
use claude_squad_ide.Base.{
  ℕ, ◌≡◌, refl, true, false, List, [], ◌∷◌, ◌++◌, none, some, Text, codes, itoa, lookup, take,
  length,
}
use claude_squad_ide.Session.Instance.World.{Reply, ok, err}
use claude_squad_ide.Ssh.HostManager.{pos}
use claude_squad_ide.App.CallGraph.DeadCode.{Symbol}
use claude_squad_ide.App.Mcp.Server.{McpServer, new_mcp_server, starts, stops, Request, Served}
use claude_squad_ide.App.Ctags.{Definition}
use claude_squad_ide.App.Mcp.Tools.{
  Index, Indexer, Tree, tree_sitter, Printer, Arguments, search_basic,
}
use claude_squad_ide.App.Mcp.Tools.Reading.{is_inside}
use claude_squad_ide.App.Mcp.Answers.{search_basic_lem, all_matches}

abbrev printer : Printer
printer = record {
  quote = λ t. t;
  to_lower = λ t. t;
  sort_by_line = λ ds. ds;
  definitions = λ ds. itoa (length ds);
  symbols = λ ss. itoa (length ss);
  symbol = λ s. s.name;
  references = λ rs. itoa (length rs);
  status = λ s. itoa s.symbol_count;
  join_path = λ a b. a ++ (codes "/" ++ b);
  absolute = λ path. ok path;
}

abbrev file : Text
file = codes "one\r\ntwo\nthree\n"

abbrev files : Text → Reply Text
files path = ok file

abbrev run : Symbol
run = record {
  name = codes "Run";
  kind = codes "function";
  file = codes "a.go";
  line = 2;
  end_line = 3;
  column = 0;
  start_byte = 4;
  end_byte = 900;
  language = codes "go";
  scope = [];
  signature = [];
  doc_comment = [];
}

abbrev definition : Text → ℕ → Definition
definition name line = record {
  name = name;
  file = codes "a.go";
  line = line;
  kind = codes "function";
  language = codes "go";
  scope = [];
}

abbrev index : Index
index = record {
  worktree = codes "/wt";
  files = codes "a.go" ∷ [];
  lookup = λ n. [];
  all_symbols =
      (codes "Run", definition (codes "Run") 2 ∷ definition (codes "Run") 9 ∷ [])
      ∷ (codes "RunAll", definition (codes "RunAll") 5 ∷ [])
      ∷ [];
}

abbrev tree : Tree
tree = record {
  sources = record {
    search = λ q n. run ∷ [];
    read_file = λ path. some file;
    find_callees = λ n. [];
    lookup_symbol = λ n. run ∷ [];
  };
  find_callers = λ n. [];
  callgraph = none;
}

abbrev server : McpServer Indexer
server = new_mcp_server ((codes "fix", tree_sitter index tree) ∷ [])

abbrev arguments : Arguments
arguments = record {
  strings = λ n. ok (codes "Run");
  numbers = λ n. ok (pos 5);
  signature_only = false;
}

search_basic_lem_example :
    search_basic printer (codes "Run") 2 index.all_symbols
    ≡ take 2 (all_matches printer (codes "Run") index.all_symbols)
search_basic_lem_example = search_basic_lem printer (codes "Run") 2 index.all_symbols

-- The folder of another worktree, whose name begins like that of this one, counts as inside.
inside_sibling : is_inside printer files (codes "/wt") (codes "/wt-other/secret") ≡ true
unfolding is_inside
inside_sibling = refl

abbrev busy : List Request
busy = starts (err (codes "in use")) ∷ starts (ok (3, 5000)) ∷ starts (ok (4, 5001)) ∷ stops ∷ []

abbrev idle : Served Indexer
idle = record { server = server; opened = 0; closed = 0 }
