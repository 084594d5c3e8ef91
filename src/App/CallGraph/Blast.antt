-- ===== src/App/CallGraph/Blast.antt =====
-- app/indexer_callgraph.go, GetBlastRadius: the symbols that depend on one, breadth first.
pub mod Reach
pub mod Listed
pub mod Covered
pub mod Complete
use claude_squad_ide.Base.{
  ℕ, zero, suc, ◌+◌, ◌*◌, max, Bool, true, false, List, [], ◌∷◌, ◌++◌, Option, none, some, Text,
  Assoc, lookup, insert, length, keep, leb, ltb, ◌==◌, is_empty, if◌then◌else◌,
}
use claude_squad_ide.App.CallGraph.{Reference, CallGraph, refs_at}
use claude_squad_ide.App.CallGraph.Floats.{Floats, pow}

pub record DependentInfo : Type 0 where
  pub symbol : Text
  pub file : Text
  pub line : ℕ
  pub depth : ℕ

pub record BlastRadius (F : Type 0) : Type 0 where
  pub symbol : Text
  pub direct_dependents : ℕ
  pub total_dependents : ℕ
  pub max_depth : ℕ
  pub risk_score : F
  pub dependents : List DependentInfo

-- The variables of the search but the queue.
pub record Search (F : Type 0) : Type 0 where
  pub visited : Assoc ℕ
  pub dependents : List DependentInfo
  pub deepest : ℕ
  pub raw_score : F

-- A symbol and its depth for each element.
abbrev pub Queue : Type 0
Queue = List (Text × ℕ)

-- `existingDepth, ok := visited[caller]; ok && existingDepth <= newDepth`
abbrev pub seen_by : ℕ → Option ℕ → Bool
seen_by depth none = false
seen_by depth (some d) = leb d depth

-- `if maxDepth <= 0 { maxDepth = 5 }`, a negative depth being 0 here.
abbrev pub depth_limit : ℕ → ℕ
depth_limit n = if n == 0 then 5 else n

-- Rounds enough for a search that has `k` levels to go, where no symbol has more than `b` callers.
abbrev pub rounds : ℕ → ℕ → ℕ
rounds b zero = 1
rounds b (suc k) = 1 + b * rounds b k

abbrev pub widest : Assoc (List Reference) → ℕ
widest [] = 0
widest ((k, rs) ∷ m) = max (length rs) (widest m)

module _ {F : Type 0} (fl : Floats F) where
  -- A caller that is met at `depth` for the first time, or at a lower depth than before.
  abbrev pub reach : ℕ → Reference → Queue × Search F → Queue × Search F
  reach depth r (q, s) = (
    q ++ (r.caller, depth) ∷ [],
    record {
      visited = insert r.caller depth s.visited;
      dependents =
          s.dependents
          ++ record { symbol = r.caller; file = r.file; line = r.line; depth = depth } ∷ [];
      deepest = if ltb s.deepest depth then depth else s.deepest;
      raw_score =
          fl.plus s.raw_score (fl.over (fl.of_nat 1) (pow fl (fl.of_nat depth) (fl.literal 7 1)));
    },
  )

  -- The body of the inner loop, for the depth of the callers.
  unfoldable pub visit : ℕ → ℕ → Reference → Queue × Search F → Queue × Search F
  visit limit depth r (q, s) =
      if is_empty r.caller
      then (q, s)
      else if ltb limit depth
      then (q, s)
      else if seen_by depth (lookup r.caller s.visited)
      then (q, s)
      else reach depth r (q, s)

  unfoldable pub visit_all : ℕ → ℕ → List Reference → Queue × Search F → Queue × Search F
  unfolding visit
  visit_all limit depth [] s = s
  visit_all limit depth (r ∷ rs) s = visit_all limit depth rs (visit limit depth r s)

  -- `for len(queue) > 0`, in at most `n` rounds.
  unfoldable pub search : ℕ → CallGraph → ℕ → Queue × Search F → Option (Search F)
  unfolding visit_all refs_at
  search n g limit ([], s) = some s
  search zero g limit (c ∷ q, s) = none
  search (suc n) g limit (c ∷ q, s) =
      search n g limit (visit_all limit (suc c.1) (refs_at c.0 g.callers) (q, s))

  abbrev pub blast_radius : Text → Search F → BlastRadius F
  blast_radius symbol s = record {
    symbol = symbol;
    direct_dependents = length (keep (λ d. d.depth == 1) s.dependents);
    total_dependents = length s.dependents;
    max_depth = s.deepest;
    risk_score =
        if fl.less (fl.of_nat 0) s.raw_score
        then fl.over s.raw_score (fl.plus s.raw_score (fl.of_nat 5))
        else fl.of_nat 0;
    dependents = s.dependents;
  }

  abbrev pub new_search : Search F
  new_search = record { visited = []; dependents = []; deepest = 0; raw_score = fl.of_nat 0 }

  abbrev pub finish : Text → Option (Search F) → Option (BlastRadius F)
  finish symbol none = none
  finish symbol (some s) = some (blast_radius symbol s)

  -- `none` would mean that the rounds were not enough.
  unfoldable pub get_blast_radius : Text → ℕ → CallGraph → Option (BlastRadius F)
  unfolding search
  get_blast_radius symbol n g = finish symbol (
      search (rounds (widest g.callers) (depth_limit n)) g (depth_limit n)
        ((symbol, 0) ∷ [], new_search))
