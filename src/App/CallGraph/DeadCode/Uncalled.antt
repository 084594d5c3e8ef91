-- ===== src/App/CallGraph/DeadCode/Uncalled.antt =====
-- app/indexer_callgraph.go, FindDeadCode: which names it reports.
use claude_squad_ide.Base.{
  ◌≡◌, refl, ap, ◌∙◌, Bool, true, false, codes, ◌==◌, not, ◌&&◌, ◌||◌, List, [], ◌∷◌, ◌++◌, Text,
  Assoc, lookup, text_eq, text_eq_iff, any, keep, map, is_empty, arith, Bool-cases, inl, inr,
}
use claude_squad_ide.App.CallGraph.{
  Reference, CallGraph, new_call_graph, add_references, find_callers, refs_at,
}
use claude_squad_ide.App.CallGraph.Floats.{Floats}
use claude_squad_ide.App.CallGraph.Lookups.{find-add_references}
use claude_squad_ide.App.CallGraph.Sorting.{any-sort}
use claude_squad_ide.App.CallGraph.DeadCode.{
  Symbol, DeadCodeResult, is_likely_entry_point, extends_, dead_code_result, dead_under,
  collect_dead, find_dead_code, more_confident,
}

any-append {ℓ} :
    {A : Type ℓ} (p : A → Bool) (xs ys : List A) → any p (xs ++ ys) ≡ (any p xs || any p ys)
any-append p [] ys = refl
any-append p (x ∷ xs) ys = ground (arith, any-append p xs ys)

is_empty-keep {ℓ} :
    {A : Type ℓ} (p : A → Bool) (xs : List A) → is_empty (keep p xs) ≡ not (any p xs)
is_empty-keep p [] = refl
is_empty-keep p (x ∷ xs) = ground (arith, is_empty-keep p xs)

is_empty-callers :
    (k : Text) (rs : List Reference)
    → is_empty (refs_at k (add_references rs new_call_graph).callers)
      ≡ not (any (λ r. text_eq r.symbol k) rs)
unfolding find_callers lookup
is_empty-callers k rs =
    ap is_empty (find-add_references k rs new_call_graph).0
    ∙ is_empty-keep (λ r. text_eq r.symbol k) rs

-- The text is `word` and something after it.
abbrev goes_on : Text → Text → Bool
goes_on [] [] = false
goes_on [] (c ∷ name) = true
goes_on (w ∷ word) [] = false
goes_on (w ∷ word) (c ∷ name) = c == w && goes_on word name

-- One of nine names, or a name that goes on after Test, Benchmark or Example.
unfoldable pub starts_program : Text → Bool
starts_program name =
    any (text_eq name) (
      codes "main"
      ∷ codes "Main"
      ∷ codes "init"
      ∷ codes "Init"
      ∷ codes "Run"
      ∷ codes "Start"
      ∷ codes "Execute"
      ∷ codes "Handle"
      ∷ codes "New"
      ∷ [])
    || goes_on (codes "Test") name
    || goes_on (codes "Benchmark") name
    || goes_on (codes "Example") name

extends-goes_on : (word name : Text) → extends_ name word ≡ goes_on word name
extends-goes_on [] [] = refl
extends-goes_on [] (c ∷ name) = ground arith
extends-goes_on (w ∷ word) [] = ground arith
extends-goes_on (w ∷ word) (c ∷ name) = ground (arith, extends-goes_on word name)

entry_point_lem : (name : Text) → is_likely_entry_point name ≡ starts_program name
unfolding is_likely_entry_point starts_program
entry_point_lem name =
    rw
      (
        extends-goes_on (codes "Test") name,
        extends-goes_on (codes "Benchmark") name,
        extends-goes_on (codes "Example") name,
      )
      refl

-- Whether the map has a symbol of that name.
abbrev pub is_known : Text → Assoc (List Symbol) → Bool
is_known k [] = false
is_known k ((j, syms) ∷ rest) = text_eq j k && not (is_empty syms) || is_known k rest

abbrev is_dead : Text → CallGraph → Bool
is_dead k g = not (is_likely_entry_point k) && is_empty (refs_at k g.callers)

module _ {F : Type 0} (fl : Floats F) where
  -- Whether some result is about the symbol of that name.
  abbrev pub reports : Text → List (DeadCodeResult F) → Bool
  reports k ds = any (λ d. text_eq d.symbol k) ds

  reported-map :
      (k j : Text) (syms : List Symbol)
      → reports k (map (dead_code_result fl j) syms) ≡ (text_eq j k && not (is_empty syms))
  reported-map k j [] = ground arith
  reported-map k j (s ∷ syms) = ground (arith, reported-map k j syms)

  reported-under :
      (g : CallGraph) (k j : Text) (syms : List Symbol)
      → reports k (dead_under fl g j syms) ≡ (text_eq j k && (is_dead k g && not (is_empty syms)))
  reported-under g k j syms = elim (Bool-cases (text_eq j k)) [
    | inl e ↦
        rw ((text_eq_iff j k).0 e) (ground (arith, reported-map k k syms, (text_eq_iff k k).1 refl))
    | inr e ↦ ground (arith, reported-map k j syms, e)
  ]

  reported-collect :
      (g : CallGraph) (k : Text) (symbols : Assoc (List Symbol))
      → reports k (collect_dead fl g symbols) ≡ (is_dead k g && is_known k symbols)
  unfolding collect_dead
  reported-collect g k [] = ground arith
  reported-collect g k ((j, syms) ∷ rest) =
      any-append (λ d. text_eq d.symbol k) (dead_under fl g j syms) (collect_dead fl g rest)
      ∙ ground (arith, reported-under g k j syms, reported-collect g k rest)

  -- FindDeadCode reports a name of the index, exported or not, exactly if it is none of main, Main,
  -- init, Init, Run, Start, Execute, Handle and New and does not go on after Test, Benchmark or
  -- Example, and none of the references that the graph was built from calls it.
  pub find_dead_code-reports :
      (k : Text) (symbols : Assoc (List Symbol)) (rs : List Reference)
      → reports k (find_dead_code fl symbols (add_references rs new_call_graph))
        ≡ (not (starts_program k) && (not (any (λ r. text_eq r.symbol k) rs) && is_known k symbols))
  unfolding find_dead_code
  find_dead_code-reports k symbols rs =
      let g = add_references rs new_call_graph in
      any-sort (more_confident fl) (λ d. text_eq d.symbol k) (collect_dead fl g symbols)
      ∙ reported-collect g k symbols
      ∙ rw (is_empty-callers k rs, entry_point_lem k) (ground arith)
