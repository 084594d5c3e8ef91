-- ===== src/App/Index/Build/Rebuilt.antt =====
-- app/indexer_treesitter.go: what an incremental build leaves.
use claude_squad_ide.Base.{
  ℕ, ◌≡◌, ◌⊎◌, true, List, [], Option, none, some, Text, text_eq, keep, All, Assoc, lookup,
  if◌then◌else◌,
}
use claude_squad_ide.App.CallGraph.{or_nil}
use claude_squad_ide.App.CallGraph.DeadCode.{Symbol}
use claude_squad_ide.App.Index.Build.{
  Tree, Indexer, IndexStore, contains_file, ensure_loaded, all_symbols,
}
use claude_squad_ide.App.Index.Build.Incremental.{found_in}

-- What is kept of the files before a build.
abbrev pub kept : Indexer → Assoc (List Symbol)
kept idx = if idx.indexed then ensure_loaded idx.store else []

abbrev stored_symbols : Option IndexStore → Assoc (List Symbol)
stored_symbols none = []
stored_symbols (some s) = s.symbols

-- Every file of the worktree has the time that is kept of it, and no time is kept of another.
abbrev pub IsCurrent : Tree → List Text → Assoc ℕ → Type 0
IsCurrent t files times =
    All (λ f. lookup f times ≡ t.mod_time f) files
    × All (λ (f, time). contains_file f files ≡ true) times

-- The table has the symbols that parsing finds in each file that is there, and no others.
abbrev pub IsFull : Tree → List Text → Assoc (List Symbol) → Type 0
IsFull t files m =
    (f : Text) → or_nil (lookup f m) ≡ (if contains_file f files then or_nil (found_in t f) else [])

-- Either nothing has changed and the index is as it was, or it has the symbols of a full table.
abbrev pub Rebuilt : Tree → List Text → Indexer → Indexer → Type 0
Rebuilt t files idx after =
    ((idx.indexed ≡ true)
      × IsCurrent t files idx.mod_times
      × (after ≡ record idx { files = files }))
    ⊎ ((m : Assoc (List Symbol)) × IsFull t files m
        × ((f : Text)
            → lookup f after.mod_times ≡ (if contains_file f files then t.mod_time f else none))
        × (after.indexed ≡ true)
        × (after.files ≡ files)
        × ((n : Text)
            → or_nil (lookup n (stored_symbols after.store))
              ≡ keep (λ s. text_eq s.name n) (all_symbols m)))
