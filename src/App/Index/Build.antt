-- ===== src/App/Index/Build.antt =====
-- app/indexer_treesitter.go and app/indexer_persistence.go: building the index again after files have
-- changed. The file system does not change during a build, and the build is not cancelled; what the
-- parser finds in a file is an argument, and the disk can be written.
pub mod Incremental
pub mod Rebuilt
mod Tests
use claude_squad_ide.Base.{
  ℕ, suc, ◌+◌, Bool, true, false, not, ◌&&◌, ◌||◌, ◌==◌, List, [], ◌∷◌, ◌++◌, Option, none, some,
  Text, text_eq, is_empty, is_some, any, keep, map, length, Assoc, lookup, insert, if◌then◌else◌,
}
use claude_squad_ide.App.CallGraph.{
  Reference, CallGraph, new_call_graph, add_references, or_nil, refs_at, stats,
}
use claude_squad_ide.App.CallGraph.DeadCode.{Symbol}
use claude_squad_ide.App.Index.Search.{is_binary}

-- The worktree: the files that git lists, their times and contents, what extractSymbols makes of
-- them, and the commit at HEAD.
pub record Tree : Type 0 where
  pub list_files : Option (List Text)
  pub mod_time : Text → Option ℕ
  pub read_file : Text → Option Text
  pub extract_symbols : Text → Text → Option (List Symbol × List Reference)
  pub head_commit : Text

-- What the store keeps on the disk, with the counts of its meta data.
pub record IndexStore : Type 0 where
  pub commit : Text
  pub symbol_count : ℕ
  pub ref_count : ℕ
  pub symbols : Assoc (List Symbol)
  pub callgraph : CallGraph

pub record Indexer : Type 0 where
  pub files : List Text
  pub mod_times : Assoc ℕ
  pub indexed : Bool
  pub store : Option IndexStore

abbrev pub count_symbols : Assoc (List Symbol) → ℕ
count_symbols [] = 0
count_symbols ((name, syms) ∷ m) = length syms + count_symbols m

unfoldable pub save_index : Assoc (List Symbol) → CallGraph → Text → IndexStore
unfolding stats
save_index symbols cg commit = record {
  commit = commit;
  symbol_count = count_symbols symbols;
  ref_count = (stats cg).0;
  symbols = symbols;
  callgraph = cg;
}

-- `m[k] = append(m[k], v)`
abbrev pub append_at {ℓ} : {V : Type ℓ} → Text → V → Assoc (List V) → Assoc (List V)
append_at k v m = insert k (or_nil (lookup k m) ++ v ∷ []) m

abbrev pub by_file : List Symbol → Assoc (List Symbol) → Assoc (List Symbol)
by_file [] m = m
by_file (sym ∷ syms) m = by_file syms (append_at sym.file sym m)

abbrev pub by_name : List Symbol → Assoc (List Symbol) → Assoc (List Symbol)
by_name [] m = m
by_name (sym ∷ syms) m = by_name syms (append_at sym.name sym m)

abbrev pub all_symbols : Assoc (List Symbol) → List Symbol
all_symbols [] = []
all_symbols ((k, syms) ∷ m) = syms ++ all_symbols m

-- ensureLoaded: the symbols of the store, by file.
unfoldable pub ensure_loaded : Option IndexStore → Assoc (List Symbol)
ensure_loaded none = []
ensure_loaded (some s) = by_file (all_symbols s.symbols) []

-- Whether two times differ, where the second may be missing.
abbrev pub differs : Option ℕ → Option ℕ → Bool
differs none old = false
differs (some t) none = true
differs (some t) (some u) = not (t == u)

unfoldable pub existing_files : Tree → List Text → List Text
existing_files t files = keep (λ f. is_some (t.mod_time f)) files

unfoldable pub changed_files : Tree → Assoc ℕ → List Text → List Text
changed_files t mod_times files = keep (λ f. differs (t.mod_time f) (lookup f mod_times)) files

abbrev pub contains_file : Text → List Text → Bool
contains_file f files = any (λ g. text_eq g f) files

unfoldable pub deleted_files : Assoc ℕ → List Text → List Text
deleted_files mod_times files =
    keep (λ f. not (contains_file f files)) (map (λ (f, t). f) mod_times)

abbrev pub extracted : Tree → Text → Option Text → Option (List Symbol × List Reference)
extracted t file none = none
extracted t file (some content) = if is_binary content then none else t.extract_symbols file content

-- What a changed file is parsed to; `none` is a file that is passed over.
unfoldable pub parse_file : Tree → Text → Option (List Symbol × List Reference)
unfolding is_binary
parse_file t file = extracted t file (t.read_file file)

abbrev pub symbols_in : Option (List Symbol × List Reference) → Option (List Symbol)
symbols_in none = none
symbols_in (some (syms, refs)) = some syms

abbrev pub refs_in : Option (List Symbol × List Reference) → List Reference
refs_in none = []
refs_in (some (syms, refs)) = refs

abbrev pub put : Text → Option (List Symbol) → Assoc (List Symbol) → Assoc (List Symbol)
put file none m = m
put file (some syms) m = insert file syms m

unfoldable pub parse_changed : Tree → List Text → Assoc (List Symbol) → Assoc (List Symbol)
unfolding parse_file
parse_changed t [] m = m
parse_changed t (f ∷ fs) m = parse_changed t fs (put f (symbols_in (parse_file t f)) m)

abbrev pub is_kept : List Text → List Text → Text → Bool
is_kept current changed f = contains_file f current && not (contains_file f changed)

unfoldable pub keep_files : (Text → Bool) → Assoc (List Symbol) → Assoc (List Symbol)
keep_files p [] = []
keep_files p ((f, syms) ∷ m) = let rest = keep_files p m in if p f then (f, syms) ∷ rest else rest

-- The symbols of the unchanged files, and of the changed ones that are parsed.
unfoldable pub new_file_symbols :
    Tree → Assoc (List Symbol) → List Text → List Text → Assoc (List Symbol)
unfolding parse_changed keep_files
new_file_symbols t old current changed =
    parse_changed t changed (keep_files (is_kept current changed) old)

-- The references of the unchanged files, which are parsed for them again.
abbrev pub read_refs : Tree → Text → Option Text → List Reference
read_refs t file none = []
read_refs t file (some content) = refs_in (t.extract_symbols file content)

abbrev pub unchanged_refs : Tree → List Text → Assoc (List Symbol) → List Reference
unchanged_refs t changed [] = []
unchanged_refs t changed ((f, syms) ∷ m) =
    let rest = unchanged_refs t changed m in
    if contains_file f changed then rest else read_refs t f (t.read_file f) ++ rest

abbrev pub changed_refs : Tree → List Text → List Reference
changed_refs t [] = []
changed_refs t (f ∷ fs) = refs_in (parse_file t f) ++ changed_refs t fs

abbrev pub times_of : Tree → List Text → Assoc ℕ
times_of t [] = []
times_of t (f ∷ fs) = elim (t.mod_time f) [
  | none ↦ times_of t fs
  | some time ↦ insert f time (times_of t fs)
]

unfoldable pub rebuild : Tree → List Text → Indexer → Indexer
unfolding existing_files changed_files deleted_files new_file_symbols ensure_loaded save_index
rebuild t listed idx =
    let files = existing_files t listed in
    let changed = changed_files t idx.mod_times files in
    let old = if idx.indexed then ensure_loaded idx.store else [] in
    let file_symbols = new_file_symbols t old files changed in
    let symbols = by_name (all_symbols file_symbols) [] in
    let refs = unchanged_refs t changed file_symbols ++ changed_refs t changed in
    let cg = add_references refs new_call_graph in
    if is_empty changed && is_empty (deleted_files idx.mod_times files) && idx.indexed
    then record idx { files = files }
    else record {
      files = files;
      mod_times = times_of t files;
      indexed = true;
      store = some (save_index symbols cg t.head_commit);
    }

-- The index of the disk is taken if it is of the commit at HEAD.
abbrev pub from_store : Tree → Option IndexStore → Bool
from_store t none = false
from_store t (some s) = text_eq s.commit t.head_commit

abbrev pub built : Tree → Option (List Text) → Indexer → Indexer
built t none idx = idx
built t (some files) idx = rebuild t files idx

unfoldable pub build : Tree → Indexer → Indexer
unfolding rebuild
build t idx =
    let files = or_nil t.list_files in
    if not idx.indexed && from_store t idx.store
    then record idx { files = files; indexed = true; mod_times = times_of t files }
    else built t t.list_files idx
