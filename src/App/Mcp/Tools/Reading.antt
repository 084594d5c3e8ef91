-- ===== src/App/Mcp/Tools/Reading.antt =====
-- app/mcp_server.go: the tools that read files of the worktree.
--
-- `files` is os.Open and what is then read.
use claude_squad_ide.Base.{
  ℕ, Bool, List, [], ◌∷◌, ◌++◌, Option, none, some, Text, codes, itoa, has_prefix, if◌then◌else◌,
}
use claude_squad_ide.Session.Instance.World.{Reply, ok, err}
use claude_squad_ide.App.CallGraph.DeadCode.{Symbol}
use claude_squad_ide.App.Index.Search.{get_symbol_content}
use claude_squad_ide.App.Mcp.Lines.{scan_range}
use claude_squad_ide.App.Mcp.Tools.{
  Index, Tree, Indexer, ctags, tree_sitter, index_of, Printer, Answer, text, fault, lines_of,
  numbered_line, if_any, needs_tree, lines_label,
}

module _ (p : Printer) (files : Text → Reply Text) where
  abbrev pub scanned : List Text × Option Text → Reply Text
  scanned (ls, none) = ok (lines_of ls)
  scanned (ls, some e) = err e

  unfoldable pub read_lines_from_file : Text → ℕ → ℕ → Reply Text
  unfolding scan_range
  read_lines_from_file path start end = elim (files path) [
    | err e ↦ err e
    | ok t ↦ scanned (scan_range (λ n l. l) start end t)
  ]

  abbrev pub source_text : Symbol → Text → Text
  source_text s content =
      codes "// "
      ++ (s.name
          ++ (codes " ("
              ++ (s.kind ++ (codes ") in " ++ (lines_label p s ++ (codes "\n" ++ content))))))

  abbrev pub source_or : Symbol → Option Text → Reply Text → Answer
  source_or s (some content) fallback = text (source_text s content)
  source_or s none (ok content) = text (source_text s content)
  source_or s none (err e) = fault (codes "failed to read symbol: " ++ e)

  abbrev pub first_source : Text → Index → Tree → List Symbol → Answer
  first_source name i t [] = text (
      codes "No symbol found: "
      ++ (p.quote name ++ codes ". Use code_search to find available symbols."))
  first_source name i t (s ∷ ss) =
      source_or s (get_symbol_content t.sources s)
        (read_lines_from_file (p.join_path i.worktree s.file) s.line s.end_line)

  unfoldable pub symbol_source : Text → Indexer → Answer
  unfolding read_lines_from_file get_symbol_content
  symbol_source name i =
      needs_tree p (codes "get_symbol_source") i
        λ index t. first_source name index t (t.sources.lookup_symbol name)

  abbrev pub with_body : Symbol → Reply Text → Symbol
  with_body s (err e) = s
  with_body s (ok body) = record s { doc_comment = body }

  abbrev pub symbol_answer : Text → Bool → Index → List Symbol → Answer
  symbol_answer name signature_only i [] = text (codes "No symbol found: " ++ p.quote name)
  symbol_answer name signature_only i (s ∷ ss) =
      if signature_only
      then text (p.symbols (s ∷ ss))
      else text (
          p.symbol
            (with_body s (read_lines_from_file (p.join_path i.worktree s.file) s.line s.end_line)))

  unfoldable pub get_symbol : Text → Bool → Indexer → Answer
  unfolding read_lines_from_file
  get_symbol name signature_only (tree_sitter i t) =
      symbol_answer name signature_only i (t.sources.lookup_symbol name)
  get_symbol name signature_only (ctags i) =
      if_any p (codes "No symbol found: " ++ p.quote name) p.definitions (i.lookup name)

  abbrev pub range_text : ℕ → ℕ → List Text × Option Text → Answer
  range_text start end (ls, some e) = fault (codes "error reading file: " ++ e)
  range_text start end ([], none) =
      text (codes "No lines found in range " ++ (itoa start ++ (codes "-" ++ itoa end)))
  range_text start end (l ∷ ls, none) = text (lines_of (l ∷ ls))

  abbrev pub opened : ℕ → ℕ → Reply Text → Answer
  opened start end (err e) = fault (codes "failed to open file: " ++ e)
  opened start end (ok t) = range_text start end (scan_range numbered_line start end t)

  abbrev pub root_or_empty : Reply Text → Text
  root_or_empty (err e) = []
  root_or_empty (ok root) = root

  -- `absWorktree` is empty where it cannot be found out.
  unfoldable pub is_inside : Text → Text → Bool
  is_inside worktree path = has_prefix path (root_or_empty (p.absolute worktree))

  abbrev pub read_inside : Text → Text → ℕ → ℕ → Reply Text → Answer
  read_inside worktree full start end (err e) = fault (codes "invalid path: " ++ e)
  read_inside worktree full start end (ok path) =
      if is_inside worktree path
      then opened start end (files full)
      else fault (codes "path escapes worktree")

  unfoldable pub read_lines : Text → ℕ → ℕ → Indexer → Answer
  unfolding is_inside scan_range
  read_lines path start end i =
      let worktree = (index_of i).worktree in
      let full = p.join_path worktree path in read_inside worktree full start end (p.absolute full)
