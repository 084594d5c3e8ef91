-- ===== src/App/CallGraph.antt =====
-- app/indexer_callgraph.go: who calls whom, and what the index computes from it.
pub mod Floats
pub mod Sorting
pub mod Lookups
pub mod DeadCode
pub mod Blast
use claude_squad_ide.Base.{
  ℕ, suc, Bool, true, false, ◌||◌, List, [], ◌∷◌, ◌++◌, Option, none, some, Text, Assoc, insert,
  lookup, length, any, text_eq, map, if◌then◌else◌,
}

-- app/indexer.go, type Reference.
pub record Reference : Type 0 where
  pub symbol : Text
  pub file : Text
  pub line : ℕ
  pub column : ℕ
  pub caller : Text
  pub kind : Text

-- The lock makes each operation atomic.
pub record CallGraph : Type 0 where
  pub callers : Assoc (List Reference)
  pub callees : Assoc (List Reference)

abbrev pub new_call_graph : CallGraph
new_call_graph = record { callers = []; callees = [] }

-- `m[k]`, which is the nil slice for a missing key.
abbrev pub or_nil {ℓ} : {A : Type ℓ} → Option (List A) → List A
or_nil none = []
or_nil (some rs) = rs

unfoldable pub refs_at : Text → Assoc (List Reference) → List Reference
refs_at k m = or_nil (lookup k m)

unfoldable pub add_reference : Reference → CallGraph → CallGraph
unfolding refs_at
add_reference r g = record {
  callers = insert r.symbol (refs_at r.symbol g.callers ++ r ∷ []) g.callers;
  callees = insert r.caller (refs_at r.caller g.callees ++ r ∷ []) g.callees;
}

unfoldable pub add_references : List Reference → CallGraph → CallGraph
unfolding add_reference
add_references [] g = g
add_references (r ∷ rs) g = add_references rs (add_reference r g)

unfoldable pub find_callers : Text → CallGraph → List Reference
unfolding refs_at
find_callers k g = refs_at k g.callers

unfoldable pub find_callees : Text → CallGraph → List Reference
unfolding refs_at
find_callees k g = refs_at k g.callees

unfoldable pub clear : CallGraph → CallGraph
clear g = new_call_graph

unfoldable pub stats : CallGraph → ℕ × ℕ
stats g = (length g.callers, length g.callees)
