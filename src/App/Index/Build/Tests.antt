-- ===== src/App/Index/Build/Tests.antt =====
-- A script that calls a function of a library, which is written again.
use claude_squad_ide.Base.{
  ℕ, ◌≡◌, refl, false, List, [], ◌∷◌, Option, none, some, Text, codes, text_eq, lookup, insert,
  if◌then◌else◌,
}
use claude_squad_ide.App.CallGraph.{Reference, find_callers, add_reference, add_references, refs_at}
use claude_squad_ide.App.CallGraph.DeadCode.{Symbol}
use claude_squad_ide.App.Index.Build.{
  Tree, Indexer, IndexStore, build, new_file_symbols, existing_files, changed_files, parse_file,
  rebuild, ensure_loaded, keep_files, parse_changed, deleted_files, save_index,
}
use claude_squad_ide.App.Index.Build.Rebuilt.{Rebuilt}

abbrev helper : Symbol
helper = record {
  name = codes "help";
  kind = codes "function";
  file = codes "lib.py";
  line = 1;
  end_line = 2;
  column = 0;
  start_byte = 0;
  end_byte = 9;
  language = codes "python";
  scope = [];
  signature = [];
  doc_comment = [];
}

abbrev call : Reference
call = record {
  symbol = codes "help";
  file = codes "run.py";
  line = 1;
  column = 0;
  caller = [];
  kind = codes "call";
}

-- The library is of the time `t`; the script has a call and no symbols.
abbrev tree_at : ℕ → Tree
tree_at t = record {
  list_files = some (codes "lib.py" ∷ codes "run.py" ∷ []);
  mod_time = λ f. some (if text_eq f (codes "lib.py") then t else 1);
  read_file = λ f. some f;
  extract_symbols =
      λ f content. some (if text_eq f (codes "lib.py") then (helper ∷ [], []) else ([], call ∷ []));
  head_commit = codes "abc";
}

abbrev fresh : Indexer
fresh = record { files = []; mod_times = []; indexed = false; store = none }

abbrev calls_of : Option IndexStore → List Reference
calls_of none = []
calls_of (some s) = find_callers (codes "help") s.callgraph

first_calls : calls_of (build (tree_at 1) fresh).store ≡ call ∷ []
unfolding build rebuild ensure_loaded keep_files parse_changed parse_file existing_files
    changed_files deleted_files save_index new_file_symbols add_references add_reference refs_at
    lookup insert find_callers
first_calls = refl

-- After the library has been written again, the call in the script is no longer known.
lost_call : calls_of (build (tree_at 2) (build (tree_at 1) fresh)).store ≡ []
unfolding build rebuild ensure_loaded keep_files parse_changed parse_file existing_files
    changed_files deleted_files save_index new_file_symbols add_references add_reference refs_at
    lookup insert find_callers
lost_call = refl

-- The library is written again after the first build, and the script is not.
abbrev first : Indexer
first = build (tree_at 1) fresh

abbrev listed : List Text
listed = codes "lib.py" ∷ codes "run.py" ∷ []
