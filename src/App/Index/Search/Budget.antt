-- ===== src/App/Index/Search/Budget.antt =====
-- app/indexer_treesitter.go: the results of a search fit its budget.
use claude_squad_ide.Base.{
  ℕ, ◌+◌, ◌≤◌, ◌≡◌, refl, Bool, true, false, List, [], ◌∷◌, Option, none, some, Text, ◌⊎◌, inl, inr,
  ltb, if_intro, arith,
}
use claude_squad_ide.App.CallGraph.DeadCode.{Symbol}
use claude_squad_ide.App.Index.Search.{
  SearchResult, ContextBundle, Sources, result, packed, pack, weigh, search_with_budget, total_of,
}

packed-within :
    (max_tokens used : ℕ) (sym : Symbol) (o : Option (Text × ℕ)) (skip : List SearchResult)
    (rest : ℕ → List SearchResult)
    → used ≤ max_tokens
    → used + total_of skip ≤ max_tokens
    → ((t : ℕ) → used + t ≤ max_tokens → used + t + total_of (rest t) ≤ max_tokens)
    → used + total_of (packed max_tokens false used sym o skip rest) ≤ max_tokens
unfolding total_of
packed-within max_tokens used sym none skip rest u a b = a
packed-within max_tokens used sym (some (content, tokens)) skip rest u a b =
    if_intro (λ (rs : List SearchResult). used + total_of rs ≤ max_tokens)
      (ltb max_tokens (used + tokens)) _ _ (λ _. omega (arith, u))
      (λ f.
        let fits : used + tokens ≤ max_tokens = ground (arith, f) in omega (arith, b tokens fits))

pack-within :
    (weight : Symbol → Option (Text × ℕ)) (max_tokens used : ℕ) (syms : List Symbol)
    → used ≤ max_tokens
    → used + total_of (pack weight max_tokens false used syms) ≤ max_tokens
unfolding pack total_of
pack-within weight max_tokens used [] u = omega (arith, u)
pack-within weight max_tokens used (sym ∷ syms) u =
    packed-within max_tokens used sym (weight sym) _ _ u (pack-within weight max_tokens used syms u)
      (λ t f. pack-within weight max_tokens (used + t) syms f)

-- The results fit, or there is only one.
abbrev pub Fits : ℕ → List SearchResult → Type 0
Fits max_tokens rs = (total_of rs ≤ max_tokens) ⊎ ((r : SearchResult) × (rs ≡ r ∷ []))

packed-Fits :
    (max_tokens : ℕ) (sym : Symbol) (o : Option (Text × ℕ)) (skip : List SearchResult)
    (rest : ℕ → List SearchResult)
    → Fits max_tokens skip
    → ((t : ℕ) → 0 + t ≤ max_tokens → 0 + t + total_of (rest t) ≤ max_tokens)
    → Fits max_tokens (packed max_tokens true 0 sym o skip rest)
unfolding total_of
packed-Fits max_tokens sym none skip rest a b = a
packed-Fits max_tokens sym (some (content, tokens)) skip rest a b =
    if_intro (Fits max_tokens) (ltb max_tokens (0 + tokens)) _ _
      (λ _. inr (result sym (content, tokens), refl))
      (λ f.
        let fits : 0 + tokens ≤ max_tokens = ground (arith, f) in
        inl (omega (arith, b tokens fits)))

pack-Fits :
    (weight : Symbol → Option (Text × ℕ)) (max_tokens : ℕ) (syms : List Symbol)
    → Fits max_tokens (pack weight max_tokens true 0 syms)
unfolding pack total_of
pack-Fits weight max_tokens [] = inl (omega arith)
pack-Fits weight max_tokens (sym ∷ syms) =
    packed-Fits max_tokens sym (weight sym) _ _ (pack-Fits weight max_tokens syms)
      (λ t f. pack-within weight max_tokens (0 + t) syms f)

-- SearchWithBudget keeps to its budget: the tokens of its results are together at most the budget,
-- or there is one result only.
pub search_with_budget-Fits :
    (s : Sources) (query : Text) (max_tokens : ℕ) (include_content : Bool)
    → Fits max_tokens (search_with_budget s query max_tokens include_content)
unfolding search_with_budget
search_with_budget-Fits s query max_tokens include_content =
    pack-Fits (weigh s include_content) max_tokens (s.search query 100)

abbrev pub bundles_total : List ContextBundle → ℕ
bundles_total [] = 0
bundles_total (b ∷ bs) = b.total_tokens + bundles_total bs

-- The bundles fit, or there is only one, and its related symbols have no tokens.
abbrev pub BundlesFit : ℕ → List ContextBundle → Type 0
BundlesFit max_tokens bs =
    (bundles_total bs ≤ max_tokens)
    ⊎ ((b : ContextBundle) × (bs ≡ b ∷ []) × (b.total_tokens ≡ b.primary.tokens))
