-- ===== src/App/Ctags.antt =====
-- app/indexer.go: the index of definitions that Universal Ctags makes of a worktree.
--
-- What git and ctags print, and whether the context is cancelled, are arguments; a nil slice of files
-- is `none`. Waiting for the loop to end, and copying what is returned, are left out.
pub mod Named
pub mod Loop
pub mod Settled
mod Tests
use claude_squad_ide.Base.{
  ℕ, suc, Bool, true, false, not, ◌&&◌, ◌||◌, contains, List, [], ◌∷◌, ◌++◌, Option, none, some,
  Text, codes, Assoc, lookup, insert, is_empty, join, split, trim_space, text_eq, if◌then◌else◌,
}
use claude_squad_ide.App.CallGraph.{or_nil}
use claude_squad_ide.App.Index.Build.{append_at}
use claude_squad_ide.App.Mcp.Lines.{raw_lines, drop_return, is_too_long}

pub record Definition : Type 0 where
  pub name : Text
  pub file : Text
  pub line : ℕ
  pub kind : Text
  pub language : Text
  pub scope : Text

-- A line of ctags as JSON: its `_type`, and the rest.
pub record CtagsEntry : Type 0 where
  pub kind_of_entry : Text
  pub definition : Definition

abbrev pub listed : Text → Option (List Text)
listed raw = if is_empty raw then none else some (split b'\n' raw)

-- The outputs of `git ls-files` with and without `--recurse-submodules`, if they do not fail; the
-- result is `none` if both do, and else the slice.
unfoldable pub list_files_in_worktree : Option Text → Option Text → Option (Option (List Text))
list_files_in_worktree (some out) plain = some (listed (trim_space out))
list_files_in_worktree none (some out) = some (listed (trim_space out))
list_files_in_worktree none none = none

abbrev pub add_entry : Option CtagsEntry → Assoc (List Definition) → Assoc (List Definition)
add_entry none m = m
add_entry (some e) m =
    if text_eq e.kind_of_entry (codes "tag") then append_at e.definition.name e.definition m else m

unfoldable pub add_lines :
    (Text → Option CtagsEntry) → List Text → Assoc (List Definition) → Assoc (List Definition)
add_lines unmarshal [] m = m
add_lines unmarshal (l ∷ ls) m =
    add_lines unmarshal ls (if is_empty l then m else add_entry (unmarshal l) m)

-- The lines that the scanner gives: one that is too long ends the loop, without an error here.
unfoldable pub scanned_lines : List Text → List Text
unfolding is_too_long
scanned_lines [] = []
scanned_lines (l ∷ ls) =
    let rest = scanned_lines ls in if is_too_long l then [] else drop_return l ∷ rest

-- `unmarshal` is json.Unmarshal of a line.
unfoldable pub parse_ctags_json : (Text → Option CtagsEntry) → Text → Assoc (List Definition)
unfolding add_lines scanned_lines raw_lines
parse_ctags_json unmarshal t = add_lines unmarshal (scanned_lines (raw_lines t)) []

-- findUniversalCtags: the bundled program if it is there, or the first of those named that is found in
-- the path and says that it is Universal Ctags.
pub record Candidate : Type 0 where
  pub path : Option Text
  pub version : Option Text

abbrev pub is_universal : Option Text → Bool
is_universal none = false
is_universal (some out) = contains out (codes "Universal Ctags")

unfoldable pub first_universal : List Candidate → Text
first_universal [] = []
first_universal (c ∷ cs) = elim c.path [
  | none ↦ first_universal cs
  | some path ↦ if is_universal c.version then path else first_universal cs
]

unfoldable pub find_universal_ctags : Option Text → List Candidate → Text
unfolding first_universal
find_universal_ctags (some bundled) cs = bundled
find_universal_ctags none cs = first_universal cs

-- The arguments of ctags, and its input.
abbrev pub ctags_args : Option (List Text) → List Text × Option Text
ctags_args files =
    let common =
      codes "--output-format=json" ∷ codes "--languages=Go,C,C++,JavaScript,TypeScript" ∷ [] in
    elim files [
      | none ↦ (common ++ codes "-R" ∷ codes "." ∷ [], none)
      | some fs ↦ (common ++ codes "-L" ∷ codes "-" ∷ [], some (join fs (codes "\n")))
    ]

abbrev pub parsed_output : (Text → Option CtagsEntry) → Option Text → Assoc (List Definition)
parsed_output unmarshal none = []
parsed_output unmarshal (some out) = parse_ctags_json unmarshal out

-- `run` runs a program with arguments and an input; an error gives no symbols and no error.
unfoldable pub run_ctags :
    (Text → Option CtagsEntry)
    → (Text → List Text × Option Text → Option Text)
    → Text
    → Option (List Text)
    → Assoc (List Definition)
unfolding parse_ctags_json
run_ctags unmarshal run path files =
    if is_empty path then [] else parsed_output unmarshal (run path (ctags_args files))

pub record SessionIndexer : Type 0 where
  pub worktree : Text
  pub files : Option (List Text)
  pub symbols : Assoc (List Definition)

abbrev pub elements : Option (List Text) → List Text
elements none = []
elements (some fs) = fs

abbrev pub same_files : List Text → List Text → Bool
same_files [] [] = true
same_files [] (g ∷ gs) = false
same_files (f ∷ fs) [] = false
same_files (f ∷ fs) (g ∷ gs) = text_eq f g && same_files fs gs

unfoldable pub files_changed : SessionIndexer → Option (List Text) → Bool
files_changed x files = not (same_files (elements x.files) (elements files))

-- When the context is cancelled: not before the end, before the files are stored, or after that and
-- before the symbols are.
pub data Cancelled : Type 0 where
  never early late : Cancelled

abbrev pub listing_of : Option (Option (List Text)) → Option (List Text)
listing_of none = none
listing_of (some files) = files

abbrev pub store_symbols : Cancelled → Assoc (List Definition) → SessionIndexer → SessionIndexer
store_symbols never symbols x = record x { symbols = symbols }
store_symbols early symbols x = x
store_symbols late symbols x = x

-- `ctags` is runCtagsCtx in the worktree. A listing that fails with no cancellation is the nil slice.
unfoldable pub build :
    (Option (List Text) → Assoc (List Definition))
    → Option (Option (List Text))
    → Cancelled
    → Bool
    → SessionIndexer
    → SessionIndexer
unfolding files_changed
build ctags listing early force x = x
build ctags listing c force x =
    let files = listing_of listing in
    if not force && not (files_changed x files)
    then x
    else store_symbols c (ctags files) (record x { files = files })
