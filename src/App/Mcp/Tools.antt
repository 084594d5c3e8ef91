-- ===== src/App/Mcp/Tools.antt =====
-- app/mcp_server.go: the tools, each from its request to its answer.
--
-- JSON, `%q` and sort.Slice are the record Printer, and files are an argument.
pub mod Reading
use claude_squad_ide.Base.{
  ℕ, zero, suc, ◌+◌, ◌-◌, Bool, List, [], ◌∷◌, ◌++◌, Option, none, some, Text, codes, itoa, map,
  join, is_empty, contains, has_prefix, text_eq, keep, take, length, replicate, Assoc, leb, ltb,
  if◌then◌else◌,
}
use claude_squad_ide.Session.Instance.World.{Reply, ok, err}
use claude_squad_ide.Ssh.HostManager.{ℤ, pos, negsuc}
use claude_squad_ide.App.CallGraph.{Reference, CallGraph, stats}
use claude_squad_ide.App.CallGraph.DeadCode.{Symbol}
use claude_squad_ide.App.Index.Search.{
  Sources, SearchResult, ContextBundle, get_symbol_content, search_with_context,
}
use claude_squad_ide.App.Ctags.{Definition}
use claude_squad_ide.App.Mcp.Lines.{scan_range}

-- The interface Indexer, as far as the tools use it.
pub record Index : Type 0 where
  pub worktree : Text
  pub files : List Text
  pub lookup : Text → List Definition
  pub all_symbols : Assoc (List Definition)

-- What a TreeSitterIndexer has beside it.
pub record Tree : Type 0 where
  pub sources : Sources
  pub find_callers : Text → List Reference
  pub callgraph : Option CallGraph

pub data Indexer : Type 0 where
  ctags : Index → Indexer
  tree_sitter : Index → Tree → Indexer

abbrev pub index_of : Indexer → Index
index_of (ctags i) = i
index_of (tree_sitter i t) = i

pub record Status : Type 0 where
  pub worktree : Text
  pub file_count : ℕ
  pub symbol_count : ℕ
  pub indexer_type : Text
  pub call_stats : Option (ℕ × ℕ)

pub record Printer : Type 0 where
  pub quote : Text → Text
  pub to_lower : Text → Text
  pub sort_by_line : List Definition → List Definition
  pub definitions : List Definition → Text
  pub symbols : List Symbol → Text
  pub symbol : Symbol → Text
  pub references : List Reference → Text
  pub status : Status → Text
  -- `filepath.Join` and `filepath.Abs`.
  pub join_path : Text → Text → Text
  pub absolute : Text → Reply Text

-- RequireString, the integer part of RequireFloat, and RequireBool.
pub record Arguments : Type 0 where
  pub strings : Text → Reply Text
  pub numbers : Text → Reply ℤ
  pub signature_only : Bool

pub data Answer : Type 0 where
  text fault : Text → Answer

-- `int(limitF)`, where an error gives zero, or the default if it is not positive.
abbrev pub positive_or : ℕ → Reply ℤ → ℕ
positive_or d (err e) = d
positive_or d (ok (negsuc n)) = d
positive_or d (ok (pos zero)) = d
positive_or d (ok (pos (suc n))) = suc n

abbrev pub at_least_one : ℤ → ℕ
at_least_one (negsuc n) = 1
at_least_one (pos zero) = 1
at_least_one (pos (suc n)) = suc n

abbrev pub lines_of : List Text → Text
lines_of ls = join ls (codes "\n")

-- `fmt.Sprintf("%s (%s) - %s:%d", ...)`
abbrev pub located : Text → Text → Text → ℕ → Text
located name kind file line =
    name ++ (codes " (" ++ (kind ++ (codes ") - " ++ (file ++ (codes ":" ++ itoa line)))))

abbrev pub symbol_line : Symbol → Text
symbol_line s =
    let line = located s.name s.kind s.file s.line in
    if is_empty s.signature then line else line ++ (codes "\n  " ++ s.signature)

abbrev pub definition_line : Definition → Text
definition_line d = located d.name d.kind d.file d.line

-- `%4d: %s`
abbrev pub numbered_line : ℕ → Text → Text
numbered_line n l =
    let digits = itoa n in replicate (4 - length digits) b' ' ++ (digits ++ (codes ": " ++ l))

unfoldable pub count_symbols : Assoc (List Definition) → ℕ
count_symbols [] = 0
count_symbols ((name, defs) ∷ m) = length defs + count_symbols m

abbrev pub all_definitions : Assoc (List Definition) → List Definition
all_definitions [] = []
all_definitions ((name, defs) ∷ m) = defs ++ all_definitions m

unfoldable pub definitions_in : Text → Assoc (List Definition) → List Definition
definitions_in path [] = []
definitions_in path ((name, defs) ∷ m) =
    keep (λ d. text_eq d.file path) defs ++ definitions_in path m

module _ (p : Printer) where
  abbrev pub matches : Text → Text → Bool
  matches query name = contains (p.to_lower name) (p.to_lower query)

  -- The loop over the symbols, with what it has found so far.
  unfoldable pub find_matches :
      Text → ℕ → List Definition → Assoc (List Definition) → List Definition
  find_matches query limit found [] = found
  find_matches query limit found ((name, defs) ∷ m) =
      let found' = found ++ defs in
      let stop = if leb limit (length found') then found' else find_matches query limit found' m in
      let next = find_matches query limit found m in if matches query name then stop else next

  unfoldable pub search_basic : Text → ℕ → Assoc (List Definition) → List Definition
  unfolding find_matches
  search_basic query limit m =
      let found = find_matches query limit [] m in
      if ltb limit (length found) then take limit found else found

  abbrev pub no_symbols : Text → Text
  no_symbols query = codes "No symbols found matching " ++ p.quote query

  abbrev pub found_lines : Text → List Text → Answer
  found_lines nothing [] = text nothing
  found_lines nothing (l ∷ ls) = text (lines_of (l ∷ ls))

  unfoldable pub code_search : Text → ℕ → Indexer → Answer
  unfolding search_basic
  code_search query limit (tree_sitter i t) =
      found_lines
        (no_symbols query ++ codes ". Try a different query or use Grep for non-code files.")
        (map symbol_line (t.sources.search query limit))
  code_search query limit (ctags i) =
      found_lines (no_symbols query) (map definition_line (search_basic query limit i.all_symbols))

  abbrev pub if_any {ℓ} : {A : Type ℓ} → Text → (List A → Text) → List A → Answer
  if_any nothing show [] = text nothing
  if_any nothing show (a ∷ as') = text (show (a ∷ as'))

  unfoldable pub file_outline : Text → Indexer → Answer
  unfolding definitions_in
  file_outline path i =
      if_any (codes "No symbols found in file " ++ p.quote path)
        (λ defs. p.definitions (p.sort_by_line defs)) (definitions_in path (index_of i).all_symbols)

  unfoldable pub search_symbols : Text → ℕ → Indexer → Answer
  unfolding search_basic
  search_symbols query limit i =
      if_any (no_symbols query) p.definitions (search_basic query limit (index_of i).all_symbols)

  abbrev pub needs_tree : Text → Indexer → (Index → Tree → Answer) → Answer
  needs_tree tool (ctags i) next = fault (tool ++ codes " requires tree-sitter indexer")
  needs_tree tool (tree_sitter i t) next = next i t

  unfoldable pub find_callers : Text → Indexer → Answer
  find_callers symbol i = needs_tree (codes "find_callers") i λ _ t.
      if_any (codes "No callers found for " ++ p.quote symbol) p.references (t.find_callers symbol)

  unfoldable pub find_callees : Text → Indexer → Answer
  find_callees symbol i = needs_tree (codes "find_callees") i λ _ t.
      if_any (codes "No callees found for " ++ p.quote symbol) p.references
        (t.sources.find_callees symbol)

  abbrev pub call_stats : Option CallGraph → Option (ℕ × ℕ)
  call_stats none = none
  call_stats (some g) = some (stats g)

  abbrev pub status_of : Indexer → Status
  status_of (ctags i) = record {
    worktree = i.worktree;
    file_count = length i.files;
    symbol_count = count_symbols i.all_symbols;
    indexer_type = codes "ctags";
    call_stats = none;
  }
  status_of (tree_sitter i t) = record {
    worktree = i.worktree;
    file_count = length i.files;
    symbol_count = count_symbols i.all_symbols;
    indexer_type = codes "tree-sitter";
    call_stats = call_stats t.callgraph;
  }

  unfoldable pub index_status : Indexer → Answer
  unfolding count_symbols
  index_status i = text (p.status (status_of i))

  abbrev pub fenced : Text → Text → Text
  fenced language content =
      codes "```" ++ (language ++ (codes "\n" ++ (content ++ codes "\n```\n")))

  abbrev pub related_text : List SearchResult → Text
  related_text [] = []
  related_text (r ∷ rs) =
      codes "#### "
      ++ (located r.symbol.name r.symbol.kind r.symbol.file r.symbol.line
          ++ (codes "\n"
              ++ (fenced r.symbol.language r.content ++ (codes "\n" ++ related_text rs))))

  abbrev pub with_related : Text → List SearchResult → Text
  with_related name [] = []
  with_related name (r ∷ rs) =
      codes "\n### Called by " ++ (name ++ (codes ":\n\n" ++ related_text (r ∷ rs)))

  abbrev pub lines_label : Symbol → Text
  lines_label s = s.file ++ (codes ":" ++ (itoa s.line ++ (codes "-" ++ itoa s.end_line)))

  abbrev pub bundle_text : ContextBundle → Text
  bundle_text b =
      let s = b.primary.symbol in
      codes "## "
      ++ (s.name
          ++ (codes " ("
              ++ (s.kind
                  ++ (codes ")\nFile: "
                      ++ (lines_label s
                          ++ (codes "\n\n"
                              ++ (fenced s.language b.primary.content
                                  ++ (with_related s.name b.related
                                      ++ (codes "\n_["
                                          ++ (itoa b.total_tokens
                                              ++ codes " tokens used]_\n"))))))))))

  unfoldable pub smart_lookup : Text → ℕ → Indexer → Answer
  unfolding search_with_context
  smart_lookup query max_tokens i = needs_tree (codes "smart_lookup") i λ _ t.
      if_any (no_symbols query ++ codes ". Try code_search for simpler lookup.")
        (λ bundles. join (map bundle_text bundles) (codes "\n---\n\n"))
        (search_with_context t.sources query max_tokens)
