-- ===== src/App/Ctags/Tests.antt =====
-- app/indexer.go: runs on small inputs.
use claude_squad_ide.Base.{
  ◌≡◌, refl, if◌then◌else◌, false, List, [], ◌∷◌, Option, none, some, Text, codes, Assoc, lookup,
  text_eq,
}
use claude_squad_ide.App.CallGraph.{or_nil}
use claude_squad_ide.App.Mcp.Lines.{raw_lines}
use claude_squad_ide.App.Ctags.{
  Definition, CtagsEntry, SessionIndexer, never, late, build, parse_ctags_json, scanned_lines,
  find_universal_ctags, elements, listing_of,
}
use claude_squad_ide.App.Ctags.Named.{tags_named, lookup-parse_ctags_json}
use claude_squad_ide.App.Ctags.Loop.{begun, loop_run, loop_step, refreshes, takes}
use claude_squad_ide.App.Ctags.Settled.{build-settles}

-- A reader that knows one line, in place of json.Unmarshal.
abbrev tag_line : Text → Option CtagsEntry
tag_line l =
    if text_eq l (codes "{main}")
    then some (record {
      kind_of_entry = codes "tag";
      definition = record {
        name = codes "main";
        file = codes "main.go";
        line = 3;
        kind = codes "func";
        language = codes "Go";
        scope = [];
      };
    })
    else none

lookup-parse_ctags_json_example :
    or_nil (lookup (codes "main") (parse_ctags_json tag_line (codes "{main}\n\nx\n")))
    ≡ tags_named tag_line (codes "main") (scanned_lines (raw_lines (codes "{main}\n\nx\n")))
lookup-parse_ctags_json_example =
    lookup-parse_ctags_json tag_line (codes "main") (codes "{main}\n\nx\n")

abbrev no_symbols : Option (List Text) → Assoc (List Definition)
no_symbols files = []

abbrev idle : SessionIndexer
idle = record { worktree = codes "/w"; files = none; symbols = [] }

abbrev two_files : Option (Option (List Text))
two_files = some (some (codes "a.go" ∷ codes "b.go" ∷ []))

build-settles_example :
    elements (build no_symbols two_files never false idle).files ≡ elements (listing_of two_files)
    × build no_symbols two_files late false (build no_symbols two_files never false idle)
      ≡ build no_symbols two_files never false idle
build-settles_example = build-settles no_symbols two_files false late idle

finds_bundled : find_universal_ctags (some (codes "/r/ctags")) [] ≡ codes "/r/ctags"
unfolding find_universal_ctags
finds_bundled = refl

skips_other_ctags :
    find_universal_ctags none (
      record { path = some (codes "/b/uctags"); version = some (codes "Exuberant Ctags") }
      ∷ record { path = some (codes "/b/ctags"); version = some (codes "Universal Ctags 6") }
      ∷ [])
    ≡ codes "/b/ctags"
unfolding find_universal_ctags
skips_other_ctags = refl

requests_fall_together :
    (loop_run (takes ∷ refreshes ∷ refreshes ∷ takes ∷ takes ∷ []) begun).forced ≡ 2
unfolding loop_run loop_step
requests_fall_together = refl
