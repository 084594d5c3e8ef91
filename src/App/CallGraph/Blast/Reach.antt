-- ===== src/App/CallGraph/Blast/Reach.antt =====
-- app/indexer_callgraph.go, GetBlastRadius: the search ends, and what it finds calls the symbol.
use claude_squad_ide.Base.{
  ℕ, zero, suc, ◌+◌, ◌*◌, ◌-◌, ◌≤◌, ◌<◌, ◌≡◌, refl, ap, ◌∙◌, true, false, List, [], ◌∷◌, ◌++◌, some,
  Text, Assoc, lookup, length, All, All-append, any, is_empty, text_eq, text_eq_iff, ltb, arith,
  Bool-cases, inl, inr, if_intro, lt→ltb,
}
use claude_squad_ide.App.CallGraph.{Reference, CallGraph, refs_at}
use claude_squad_ide.App.CallGraph.Floats.{Floats}
use claude_squad_ide.App.CallGraph.Blast.{
  DependentInfo, BlastRadius, Search, Queue, seen_by, depth_limit, rounds, widest, visit, visit_all,
  search, blast_radius, new_search, get_blast_radius,
}

-- `c` calls `s`, by a reference of the graph from a known caller.
abbrev pub Calls : CallGraph → Text → Text → Type 0
Calls g c s = (is_empty c ≡ false) × (any (λ r. text_eq r.caller c) (refs_at s g.callers) ≡ true)

-- A chain of `d` calls, each by a caller of the one before, from `root` up to a symbol.
pub data Chain (g : CallGraph) (root : Text) : Text → ℕ → Type 0 where
  start : Chain g root root 0
  called : (s c : Text) (d : ℕ) → Chain g root s d → Calls g c s → Chain g root c (suc d)

-- The rounds that a queue needs at most.
abbrev pending : ℕ → ℕ → Queue → ℕ
pending b limit [] = 0
pending b limit (c ∷ q) = rounds b (limit - c.1) + pending b limit q

pending-append :
    (b limit : ℕ) (q q' : Queue)
    → pending b limit (q ++ q') ≡ pending b limit q + pending b limit q'
pending-append b limit [] q' = omega arith
pending-append b limit (c ∷ q) q' = omega (arith, pending-append b limit q q')

pending-first : (b limit : ℕ) (symbol : Text) → pending b limit ((symbol, 0) ∷ []) ≤ rounds b limit
pending-first b limit symbol =
    let e : rounds b (limit - 0) ≡ rounds b limit = ap (rounds b) (omega arith) in omega (arith, e)

levels_left : (limit d : ℕ) → suc d ≤ limit → limit - d ≡ suc (limit - suc d)
levels_left limit d h = omega arith

no_levels_left : (limit d : ℕ) → limit ≤ d → limit - d ≡ 0
no_levels_left limit d h = omega arith

product_le : (a b c : ℕ) → a ≤ b → a * c ≤ b * c
product_le a b c h = grind arith

refs-widest : (k : Text) (m : Assoc (List Reference)) → length (refs_at k m) ≤ widest m
unfolding refs_at lookup
refs-widest k [] = omega arith
refs-widest k ((j, rs) ∷ m) = ground (arith, refs-widest k m)

-- A dependent stands at the end of a chain of calls, within the limit.
abbrev pub Found : CallGraph → Text → ℕ → DependentInfo → Type 0
Found g root limit d = Chain g root d.symbol d.depth × (0 < d.depth) × (d.depth ≤ limit)

module _ {F : Type 0} (fl : Floats F) where
  pending-visit :
      (b limit d : ℕ) (r : Reference) (s : Queue × Search F)
      → suc d ≤ limit
      → pending b limit (visit fl limit (suc d) r s).0
        ≤ pending b limit s.0 + rounds b (limit - suc d)
  unfolding visit
  pending-visit b limit d r (q, s) h =
      ground (arith, pending-append b limit q ((r.caller, suc d) ∷ []))

  pending-visit_all :
      (b limit d : ℕ) (rs : List Reference) (s : Queue × Search F)
      → suc d ≤ limit
      → pending b limit (visit_all fl limit (suc d) rs s).0
        ≤ pending b limit s.0 + length rs * rounds b (limit - suc d)
  unfolding visit_all
  pending-visit_all b limit d [] s h = omega arith
  pending-visit_all b limit d (r ∷ rs) s h = grind (
    arith,
    pending-visit_all b limit d rs (visit fl limit (suc d) r s) h,
    pending-visit b limit d r s h,
  )

  visit-deep :
      (limit d : ℕ) (r : Reference) (s : Queue × Search F)
      → limit ≤ d
      → visit fl limit (suc d) r s ≡ s
  unfolding visit
  visit-deep limit d r (q, s) h =
      let same = λ (x : Queue × Search F). x ≡ (q, s) in
      if_intro same (is_empty r.caller) _ _ (λ _. refl)
        λ _.
          if_intro same (ltb limit (suc d)) _ _ (λ _. refl)
            λ e. absurd (ground (arith, lt→ltb limit (suc d)))

  visit_all-deep :
      (limit d : ℕ) (rs : List Reference) (s : Queue × Search F)
      → limit ≤ d
      → visit_all fl limit (suc d) rs s ≡ s
  unfolding visit_all
  visit_all-deep limit d [] s h = refl
  visit_all-deep limit d (r ∷ rs) s h =
      visit_all-deep limit d rs (visit fl limit (suc d) r s) h ∙ visit-deep limit d r s h

  -- A round takes away more of what is pending than it adds.
  pending-round :
      (g : CallGraph) (limit : ℕ) (c : Text × ℕ) (q : Queue) (s : Search F)
      → suc (
          pending
            (widest g.callers)
            limit
            (visit_all fl limit (suc c.1) (refs_at c.0 g.callers) (q, s)).0)
        ≤ pending (widest g.callers) limit (c ∷ q)
  pending-round g limit (k, d) q s =
      let b = widest g.callers in
      let rs = refs_at k g.callers in
      elim (Bool-cases (ltb d limit)) [
        | inl e ↦
            let shallow : suc d ≤ limit = ground (arith, e) in
            let level : rounds b (limit - d) ≡ 1 + b * rounds b (limit - suc d) =
              ap (rounds b) (levels_left limit d shallow) in
            omega (
              arith,
              level,
              pending-visit_all b limit d rs (q, s) shallow,
              product_le (length rs) b (rounds b (limit - suc d)) (refs-widest k g.callers),
            )
        | inr e ↦
            let deep : limit ≤ d = ground (arith, e) in
            let level : rounds b (limit - d) ≡ 1 = ap (rounds b) (no_levels_left limit d deep) in
            rw (visit_all-deep limit d rs (q, s) deep) (omega (arith, level))
      ]

  -- What holds of the search at any time: the queue and the dependents stand at the end of chains.
  abbrev IsSound : CallGraph → Text → ℕ → Queue × Search F → Type 0
  IsSound g root limit (q, s) =
      All (λ c. Chain g root c.0 c.1) q × All (Found g root limit) s.dependents

  visit-IsSound :
      (g : CallGraph) (root k : Text) (limit d : ℕ) (r : Reference) (s : Queue × Search F)
      → Chain g root k d
      → (is_empty r.caller ≡ false → Calls g r.caller k)
      → IsSound g root limit s
      → IsSound g root limit (visit fl limit (suc d) r s)
  unfolding visit
  visit-IsSound g root k limit d r (q, s) ch calls v =
      let P = IsSound g root limit in
      if_intro P (is_empty r.caller) _ _ (λ _. v)
        λ known.
          if_intro P (ltb limit (suc d)) _ _ (λ _. v)
            λ shallow.
              if_intro P (seen_by (suc d) (lookup r.caller s.visited)) _ _ (λ _. v)
                λ _.
                  let up = called k r.caller d ch (calls known) in
                  (
                    All-append _ q _ v.0 (up, tt),
                    All-append _ s.dependents _ v.1
                        ((up, omega arith, ground (arith, shallow)), tt),
                  )

  visit_all-IsSound :
      (g : CallGraph) (root k : Text) (limit d : ℕ) (rs : List Reference) (s : Queue × Search F)
      → Chain g root k d
      → ((c : Text)
          → any (λ r. text_eq r.caller c) rs ≡ true
          → any (λ r. text_eq r.caller c) (refs_at k g.callers) ≡ true)
      → IsSound g root limit s
      → IsSound g root limit (visit_all fl limit (suc d) rs s)
  unfolding visit_all
  visit_all-IsSound g root k limit d [] s ch sub v = v
  visit_all-IsSound g root k limit d (r ∷ rs) s ch sub v =
      visit_all-IsSound g root k limit d rs (visit fl limit (suc d) r s) ch
        (λ c h. sub c (ground arith))
        (visit-IsSound g root k limit d r s ch
          (λ e. (e, sub r.caller (ground (arith, text_eq_iff r.caller r.caller)))) v)

  search-run :
      (n : ℕ) (g : CallGraph) (root : Text) (limit : ℕ) (s : Queue × Search F)
      → pending (widest g.callers) limit s.0 ≤ n
      → IsSound g root limit s
      → (t : Search F) × (search fl n g limit s ≡ some t) × All (Found g root limit) t.dependents
  unfolding search
  search-run n g root limit ([], s) h v = (s, refl, v.1)
  search-run zero g root limit (c ∷ q, s) h v = absurd (omega (arith, pending-round g limit c q s))
  search-run (suc n) g root limit (c ∷ q, s) h v =
      search-run n g root limit (visit_all fl limit (suc c.1) (refs_at c.0 g.callers) (q, s))
        (omega (arith, pending-round g limit c q s))
        (visit_all-IsSound g root c.0 limit c.1 (refs_at c.0 g.callers) (q, s) v.0.0 (λ _ h. h)
          (v.0.1, v.1))

  -- GetBlastRadius always returns. Each dependent that it lists stands at the end of a chain of
  -- calls of that depth up from the symbol, which is at least 1 and at most the limit; the total is
  -- their number.
  pub get_blast_radius-Found :
      (symbol : Text) (n : ℕ) (g : CallGraph)
      → (r : BlastRadius F) × (get_blast_radius fl symbol n g ≡ some r)
        × All (Found g symbol (depth_limit n)) r.dependents
        × (r.total_dependents ≡ length r.dependents)
  unfolding get_blast_radius
  get_blast_radius-Found symbol n g =
      let t =
        search-run (rounds (widest g.callers) (depth_limit n)) g symbol (depth_limit n)
          ((symbol, 0) ∷ [], new_search fl)
          (pending-first (widest g.callers) (depth_limit n) symbol) ((start, tt), tt) in
      (blast_radius fl symbol t.0, rw t.1 refl, t.2, refl)
