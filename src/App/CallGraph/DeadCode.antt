-- ===== src/App/CallGraph/DeadCode.antt =====
-- app/indexer_callgraph.go, FindDeadCode: the symbols that nothing in the index calls.
pub mod Uncalled
use claude_squad_ide.Base.{
  ℕ, Bool, true, false, not, ◌&&◌, ◌||◌, List, [], ◌∷◌, ◌++◌, Text, Assoc, codes, length, take, leb,
  ltb, any, map, text_eq, is_empty, if◌then◌else◌,
}
use claude_squad_ide.App.CallGraph.{CallGraph, refs_at}
use claude_squad_ide.App.CallGraph.Floats.{Floats}
use claude_squad_ide.App.CallGraph.Sorting.{sort}

-- app/indexer.go, type Symbol.
pub record Symbol : Type 0 where
  pub name : Text
  pub kind : Text
  pub file : Text
  pub line : ℕ
  pub end_line : ℕ
  pub column : ℕ
  pub start_byte : ℕ
  pub end_byte : ℕ
  pub language : Text
  pub scope : Text
  pub signature : Text
  pub doc_comment : Text

-- Without the reason, which is the same for all.
pub record DeadCodeResult (F : Type 0) : Type 0 where
  pub symbol : Text
  pub file : Text
  pub line : ℕ
  pub kind : Text
  pub confidence : F

abbrev pub entry_points : List Text
entry_points =
    codes "main"
    ∷ codes "Main"
    ∷ codes "init"
    ∷ codes "Init"
    ∷ codes "Run"
    ∷ codes "Start"
    ∷ codes "Execute"
    ∷ codes "Handle"
    ∷ codes "New"
    ∷ []

-- `len(name) > len(p) && name[:len(p)] == p`
abbrev pub extends_ : Text → Text → Bool
extends_ name p = ltb (length p) (length name) && text_eq (take (length p) name) p

unfoldable pub is_likely_entry_point : Text → Bool
is_likely_entry_point name =
    any (text_eq name) entry_points
    || extends_ name (codes "Test")
    || extends_ name (codes "Benchmark")
    || extends_ name (codes "Example")

abbrev pub starts_lower : Text → Bool
starts_lower [] = false
starts_lower (c ∷ s) = leb b'a' c && leb c b'z'

module _ {F : Type 0} (fl : Floats F) where
  unfoldable pub confidence : Text → Symbol → F
  confidence name sym =
      let base = fl.literal 5 1 in
      let lower = if starts_lower name then fl.plus base (fl.literal 3 1) else base in
      let typed =
        if text_eq sym.kind (codes "type") || text_eq sym.kind (codes "interface")
        then fl.minus lower (fl.literal 2 1)
        else lower in
      let in_class =
        if text_eq sym.kind (codes "method") then fl.minus typed (fl.literal 1 1) else typed in
      let called =
        if text_eq sym.kind (codes "function")
        then fl.plus in_class (fl.literal 1 1)
        else in_class in
      let low = if fl.less called (fl.of_nat 0) then fl.of_nat 0 else called in
      if fl.less (fl.of_nat 1) low then fl.of_nat 1 else low

  abbrev pub dead_code_result : Text → Symbol → DeadCodeResult F
  dead_code_result name sym = record {
    symbol = name;
    file = sym.file;
    line = sym.line;
    kind = sym.kind;
    confidence = confidence name sym;
  }

  -- One round of the loop over the map of symbols.
  abbrev pub dead_under : CallGraph → Text → List Symbol → List (DeadCodeResult F)
  dead_under g name syms =
      if is_likely_entry_point name
      then []
      else if is_empty (refs_at name g.callers)
      then map (dead_code_result name) syms
      else []

  unfoldable pub collect_dead : CallGraph → Assoc (List Symbol) → List (DeadCodeResult F)
  collect_dead g [] = []
  collect_dead g ((name, syms) ∷ rest) = dead_under g name syms ++ collect_dead g rest

  abbrev pub more_confident : DeadCodeResult F → DeadCodeResult F → Bool
  more_confident a b = fl.less b.confidence a.confidence

  unfoldable pub find_dead_code : Assoc (List Symbol) → CallGraph → List (DeadCodeResult F)
  unfolding collect_dead
  find_dead_code symbols g = sort more_confident (collect_dead g symbols)
