-- ===== src/App/CallGraph/Blast/Complete.antt =====
-- app/indexer_callgraph.go, GetBlastRadius: every symbol up a chain of calls is found.
use claude_squad_ide.Base.{
  ℕ, suc, ◌≤◌, ◌<◌, ◌≡◌, refl, sym, ap, subst, ◌⊎◌, inl, inr, true, List, [], ◌∷◌, Option, none,
  some, Text, lookup, text_eq_iff, arith,
}
use claude_squad_ide.App.CallGraph.{CallGraph}
use claude_squad_ide.App.CallGraph.Floats.{Floats}
use claude_squad_ide.App.CallGraph.Blast.{
  DependentInfo, BlastRadius, Search, depth_limit, search, finish, rounds, widest, new_search,
  get_blast_radius,
}
use claude_squad_ide.App.CallGraph.Blast.Reach.{Calls, Chain, start, called, get_blast_radius-Found}
use claude_squad_ide.App.CallGraph.Blast.Listed.{seen_some, listed_deeper, queued, is_listed}
use claude_squad_ide.App.CallGraph.Blast.Covered.{
  Known, IsDone, IsCovered, Nothing, search-IsCovered,
}

module _ {F : Type 0} (fl : Floats F) (g : CallGraph) (root : Text) (limit : ℕ) where
  Callers-Known :
      (t : Search F) (k c : Text) (e : ℕ)
      → IsCovered fl g root limit (Nothing fl g root limit) ([], t)
      → Known fl g root limit t k e
      → Calls g c k
      → suc e ≤ limit
      → (x : ℕ) × (lookup c t.visited ≡ some x) × (x ≤ suc e)
  Callers-Known t k c e v h calls l = elim (v.0 k e h) [
    | inl never ↦ absurd (ground (arith, never))
    | inr (inl done) ↦ seen_some (suc e) (lookup c t.visited) (done c calls.0 calls.1 l)
    | inr (inr never) ↦ absurd (ground (arith, never))
  ]

  -- Every chain of calls ends at a known symbol, no deeper than the chain is long.
  Chain-Known :
      (t : Search F)
      → IsCovered fl g root limit (Nothing fl g root limit) ([], t)
      → (c : Text) (d : ℕ) → Chain g root c d
      → d ≤ limit
      → (e : ℕ) × (e ≤ d) × Known fl g root limit t c e
  Chain-Known t v c d start k = (0, omega arith, inl (refl, refl))
  Chain-Known t v c d (called b c' d' ch calls) k =
      let ih = Chain-Known t v b d' ch (omega arith) in
      let r = Callers-Known t b c ih.0 v ih.2 calls (omega (arith, ih.1)) in
      (r.0, omega (arith, r.2, ih.1), inr r.1)

  Chain-listed :
      (t : Search F)
      → IsCovered fl g root limit (Nothing fl g root limit) ([], t)
      → (c : Text) (d : ℕ) → Chain g root c d
      → 0 < d
      → d ≤ limit
      → is_listed c d t.dependents ≡ true
  Chain-listed t v c d start h k = absurd (omega arith)
  Chain-listed t v c d (called b c' d' ch calls) h k =
      let ih = Chain-Known t v b d' ch (omega arith) in
      let r = Callers-Known t b c ih.0 v ih.2 calls (omega (arith, ih.1)) in
      listed_deeper c r.0 d t.dependents (omega (arith, r.2, ih.1)) (v.1 c r.0 r.1)

  first-IsCovered :
      IsCovered fl g root limit (Nothing fl g root limit) ((root, 0) ∷ [], new_search fl)
  unfolding lookup
  first-IsCovered = (first, λ c d h. cc)
    where
      first :
          (c : Text) (d : ℕ)
          → Known fl g root limit (new_search fl) c d
          → (queued c d ((root, 0) ∷ []) ≡ true)
            ⊎ (IsDone fl g root limit (new_search fl) c d ⊎ Nothing fl g root limit c d)
      first c d (inl h) = inl (ground (arith, h.1, (text_eq_iff root c).1 (sym h.0)))
      first c d (inr h) = cc

abbrev dependents_of : {F : Type 0} → Option (BlastRadius F) → List DependentInfo
dependents_of none = []
dependents_of (some r) = r.dependents

finish-some :
    {F : Type 0} (fl : Floats F) (symbol : Text) (o : Option (Search F)) (r : BlastRadius F)
    → finish fl symbol o ≡ some r
    → (t : Search F) × (o ≡ some t) × (t.dependents ≡ r.dependents)
finish-some fl symbol none r h = cc
finish-some fl symbol (some t) r h = (t, refl, ap dependents_of h)

finish-listed :
    {F : Type 0} (fl : Floats F) (g : CallGraph) (symbol : Text) (n : ℕ) (r : BlastRadius F)
    → get_blast_radius fl symbol n g ≡ some r
    → (c : Text) (d : ℕ) → Chain g symbol c d
    → 0 < d
    → d ≤ depth_limit n
    → is_listed c d r.dependents ≡ true
unfolding get_blast_radius
finish-listed fl g symbol n r h c d ch l k =
    let limit = depth_limit n in
    let t =
      finish-some fl symbol
        (search fl (rounds (widest g.callers) limit) g limit ((symbol, 0) ∷ [], new_search fl)) r
        h in
    let v =
      search-IsCovered fl g symbol limit (rounds (widest g.callers) limit)
        ((symbol, 0) ∷ [], new_search fl) t.0 t.1 (first-IsCovered fl g symbol limit) in
    subst (λ ds. is_listed c d ds ≡ true) t.2 (Chain-listed fl g symbol limit t.0 v c d ch l k)

-- GetBlastRadius returns a result that has, for every symbol at the end of a chain of calls up from
-- the given one, of a length from 1 to the limit, a dependent of that name at that depth or a lower
-- one.
pub get_blast_radius-is_listed :
    {F : Type 0} (fl : Floats F) (g : CallGraph) (symbol : Text) (n : ℕ)
    → (r : BlastRadius F) × (get_blast_radius fl symbol n g ≡ some r)
      × ((c : Text) (d : ℕ)
          → Chain g symbol c d
          → 0 < d
          → d ≤ depth_limit n
          → is_listed c d r.dependents ≡ true)
get_blast_radius-is_listed fl g symbol n =
    let r = get_blast_radius-Found fl symbol n g in (r.0, r.1, finish-listed fl g symbol n r.0 r.1)
