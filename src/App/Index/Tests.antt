-- ===== src/App/Index/Tests.antt =====
-- A file of two functions, and a diff of two files.
use claude_squad_ide.Base.{
  ℕ, ◌≡◌, refl, true, All, List, [], ◌∷◌, ◌++◌, some, Text, codes, length, Assoc,
}
use claude_squad_ide.Session.Instance.World.{Reply, ok, err}
use claude_squad_ide.App.CallGraph.DeadCode.{Symbol}
use claude_squad_ide.App.Index.Search.{
  Sources, search_with_budget, search_with_context, pack, get_symbol_content, estimate_tokens,
  total_of, pack_bundles, pack_related,
}
use claude_squad_ide.App.Index.Search.Budget.{bundles_total}
use claude_squad_ide.App.Index.Changes.{
  DiffHunk, parse_diff_output, file_of, hunk_of, get_changed_symbols, pairs_met, ChangedSymbol,
  get_change_type, changed_symbols,
}
use claude_squad_ide.App.Index.Changes.Complete.{
  touches, has_label, label, AreNew, get_changed_symbols_lem,
}

abbrev function_at : Text → ℕ → ℕ → ℕ → Symbol
function_at name line start end = record {
  name = name;
  kind = codes "function";
  file = codes "a.go";
  line = line;
  end_line = line;
  column = 0;
  start_byte = start;
  end_byte = end;
  language = codes "go";
  scope = [];
  signature = [];
  doc_comment = [];
}

abbrev both : List Symbol
both = function_at (codes "f") 1 0 10 ∷ function_at (codes "g") 2 11 21 ∷ []

abbrev sources : Sources
sources = record {
  search = λ query limit. both;
  read_file = λ path. some (codes "func f(){}\nfunc g(){}\n");
  find_callees = λ name. [];
  lookup_symbol = λ name. [];
}

-- Each has 10 characters, which are 3 tokens: both fit 6, and one fits 5.
both_fit : length (search_with_budget sources (codes "f") 6 true) ≡ 2
unfolding search_with_budget pack get_symbol_content estimate_tokens
both_fit = refl

one_fits : length (search_with_budget sources (codes "f") 5 true) ≡ 1
unfolding search_with_budget pack get_symbol_content estimate_tokens
one_fits = refl

two_bundles : bundles_total (search_with_context sources (codes "f") 8) ≡ 6
unfolding search_with_context pack_bundles pack_related get_symbol_content estimate_tokens total_of
two_bundles = refl

abbrev diff_of_two : Text
diff_of_two =
    codes "diff --git a/a.go b/a.go\n--- a/a.go\n+++ b/a.go\n@@ -3 +3,2 @@\n-x\n+y\n+z\n"
    ++ codes "diff --git a/b.go b/b.go\n--- a/b.go\n+++ b/b.go\n@@ -7,0 +8 @@\n+w\n"

abbrev hunk_of_a : DiffHunk
hunk_of_a = record {
  file = codes "a.go";
  old_start = 3;
  old_count = 1;
  new_start = 3;
  new_count = 2;
  header = codes "@@ -3 +3,2 @@";
  added_lines = 3 ∷ 4 ∷ 5 ∷ [];
  removed_lines = 3 ∷ 4 ∷ [];
}

abbrev hunk_of_b : DiffHunk
hunk_of_b = record {
  file = codes "b.go";
  old_start = 7;
  old_count = 0;
  new_start = 8;
  new_count = 1;
  header = codes "@@ -7,0 +8 @@";
  added_lines = 8 ∷ [];
  removed_lines = [];
}

-- The lines `---` and `+++` before the second file are counted as changes of the first.
one_too_many : parse_diff_output diff_of_two ≡ hunk_of_a ∷ hunk_of_b ∷ []
unfolding parse_diff_output file_of hunk_of
one_too_many = refl

abbrev index_of_f : Assoc (List Symbol)
index_of_f = (codes "f", function_at (codes "f") 4 0 10 ∷ []) ∷ []

get_changed_symbols_lem_example :
    (cs : List ChangedSymbol) × (get_changed_symbols (ok (hunk_of_a ∷ hunk_of_b ∷ [])) index_of_f
      ≡ ok cs)
    × All
        (λ hunk.
          All
            (λ (name, syms).
              All (λ sym. touches hunk sym ≡ true → has_label (label sym) cs ≡ true) syms)
            index_of_f)
        (hunk_of_a ∷ hunk_of_b ∷ [])
    × AreNew [] cs
get_changed_symbols_lem_example = get_changed_symbols_lem (hunk_of_a ∷ hunk_of_b ∷ []) index_of_f

abbrev reported : Reply (List ChangedSymbol) → ℕ
reported (err e) = 0
reported (ok cs) = length cs

found_once :
    reported (get_changed_symbols (ok (hunk_of_a ∷ hunk_of_a ∷ hunk_of_b ∷ [])) index_of_f) ≡ 1
unfolding get_changed_symbols pairs_met changed_symbols get_change_type
found_once = refl
