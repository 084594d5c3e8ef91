-- ===== src/App/Tests.antt =====
-- A small call graph, with natural numbers in the place of floats, and a machine of 16 GB.
use claude_squad_ide.App.Memory.{get_system_memory_mb}
use claude_squad_ide.Base.{
  ℕ, ◌+◌, ◌-◌, ◌*◌, ◌/◌, ◌≡◌, refl, true, ◌<◌, ◌≤◌, not, ◌&&◌, List, [], ◌∷◌, some, Text, codes,
  Assoc, any, All, text_eq, length, ltb, ◌==◌, arith,
}
use mathlib.Core.List.{Perm}
use claude_squad_ide.App.CallGraph.{Reference, CallGraph, new_call_graph, add_references}
use claude_squad_ide.App.CallGraph.Floats.{Floats}
use claude_squad_ide.App.CallGraph.Sorting.{sort, IsDescending, sort_lem}
use claude_squad_ide.App.CallGraph.DeadCode.{Symbol, find_dead_code}
use claude_squad_ide.App.CallGraph.DeadCode.Uncalled.{
  reports, is_known, starts_program, find_dead_code-reports,
}
use claude_squad_ide.App.CallGraph.Blast.{BlastRadius, get_blast_radius, depth_limit}
use claude_squad_ide.App.CallGraph.Blast.Listed.{is_listed}
use claude_squad_ide.App.CallGraph.Blast.Complete.{get_blast_radius-is_listed}
use claude_squad_ide.App.CallGraph.Blast.Reach.{Chain, Found, get_blast_radius-Found}

abbrev naturals : Floats ℕ
naturals = record {
  literal = λ n k. n;
  of_nat = λ n. n;
  plus = λ a b. a + b;
  minus = λ a b. a - b;
  times = λ a b. a * b;
  over = λ a b. a / b;
  less = ltb;
  same = λ a b. a == b;
}

abbrev call : Text → Text → Reference
call caller symbol = record {
  symbol = symbol;
  file = codes "a.go";
  line = 3;
  column = 1;
  caller = caller;
  kind = codes "call";
}

-- main calls run, run calls help, and help calls run.
abbrev calls : List Reference
calls =
    call (codes "main") (codes "run")
    ∷ call (codes "run") (codes "help")
    ∷ call (codes "help") (codes "run")
    ∷ []

abbrev graph : CallGraph
graph = add_references calls new_call_graph

abbrev function : Text → Symbol
function name = record {
  name = name;
  kind = codes "function";
  file = codes "a.go";
  line = 1;
  end_line = 2;
  column = 0;
  start_byte = 0;
  end_byte = 9;
  language = codes "go";
  scope = [];
  signature = [];
  doc_comment = [];
}

abbrev symbols : Assoc (List Symbol)
symbols =
    (codes "run", function (codes "run") ∷ [])
    ∷ (codes "unused", function (codes "unused") ∷ [])
    ∷ (codes "main", function (codes "main") ∷ [])
    ∷ []

sort_lem_example :
    Perm (sort (λ a b. ltb b a) (2 ∷ 7 ∷ 4 ∷ [])) (2 ∷ 7 ∷ 4 ∷ [])
    × IsDescending (λ a b. ltb b a) (sort (λ a b. ltb b a) (2 ∷ 7 ∷ 4 ∷ []))
sort_lem_example =
    sort_lem (λ a b. ltb b a) (λ x y h. ground arith) (λ x y z h k. ground arith) (2 ∷ 7 ∷ 4 ∷ [])

find_dead_code-reports_example :
    reports naturals (codes "unused") (find_dead_code naturals symbols graph) ≡ (
      not (starts_program (codes "unused"))
      && (not (any (λ r. text_eq r.symbol (codes "unused")) calls)
          && is_known (codes "unused") symbols))
find_dead_code-reports_example = find_dead_code-reports naturals (codes "unused") symbols calls

get_blast_radius-Found_example :
    (r : BlastRadius ℕ) × (get_blast_radius naturals (codes "help") 2 graph ≡ some r)
    × All (Found graph (codes "help") (depth_limit 2)) r.dependents
    × (r.total_dependents ≡ length r.dependents)
get_blast_radius-Found_example = get_blast_radius-Found naturals (codes "help") 2 graph

get_blast_radius-is_listed_example :
    (r : BlastRadius ℕ) × (get_blast_radius naturals (codes "help") 2 graph ≡ some r)
    × ((c : Text) (d : ℕ)
        → Chain graph (codes "help") c d
        → 0 < d
        → d ≤ depth_limit 2
        → is_listed c d r.dependents ≡ true)
get_blast_radius-is_listed_example = get_blast_radius-is_listed naturals graph (codes "help") 2

-- A machine of 16 GB.
memory_16 : get_system_memory_mb (some (0 ∷ 0 ∷ 0 ∷ 0 ∷ 4 ∷ 0 ∷ 0 ∷ 0 ∷ [])) ≡ 16384
unfolding get_system_memory_mb
memory_16 = refl
