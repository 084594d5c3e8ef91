-- ===== src/App/Mcp/Answers.antt =====
-- app/mcp_server.go: what the search without tree-sitter finds.
use claude_squad_ide.Base.{
  ℕ, zero, suc, ◌≤◌, ◌≡◌, refl, sym, ap, ◌∙◌, inl, inr, List, [], ◌∷◌, ◌++◌, Text, Assoc, length,
  take, append_assoc, append-nil, ltb, leb, Bool-cases, arith, if◌then◌else◌,
}
use claude_squad_ide.App.Ctags.{Definition}
use claude_squad_ide.App.Mcp.Tools.{Printer, matches, find_matches, search_basic}

-- All definitions of the names that match, in the order of the map.
unfoldable pub all_matches : Printer → Text → Assoc (List Definition) → List Definition
all_matches p query [] = []
all_matches p query ((name, defs) ∷ m) =
    if matches p query name then defs ++ all_matches p query m else all_matches p query m

take-append_long {ℓ} :
    {A : Type ℓ} (n : ℕ) (xs ys : List A) → n ≤ length xs → take n (xs ++ ys) ≡ take n xs
take-append_long zero xs ys h = refl
take-append_long (suc n) [] ys h = absurd (omega arith)
take-append_long (suc n) (x ∷ xs) ys h = ap (λ zs. x ∷ zs) (take-append_long n xs ys (omega arith))

take-find_matches :
    (p : Printer) (query : Text) (limit : ℕ) (found : List Definition) (m : Assoc (List Definition))
    → take limit (find_matches p query limit found m) ≡ take limit (found ++ all_matches p query m)
unfolding find_matches all_matches
take-find_matches p query limit found [] = ap (take limit) (sym (append-nil found))
take-find_matches p query limit found ((name, defs) ∷ m) =
    elim (Bool-cases (matches p query name)) [
      | inr no_match ↦ rw no_match (take-find_matches p query limit found m)
      | inl match ↦ elim (Bool-cases (leb limit (length (found ++ defs)))) [
        | inr more ↦
            rw (match, more)
              (take-find_matches p query limit (found ++ defs) m
                ∙ ap (take limit) (append_assoc found defs (all_matches p query m)))
        | inl enough ↦
            rw (match, enough)
              (sym (
                  take-append_long limit (found ++ defs) (all_matches p query m)
                    (ground (arith, enough)))
                ∙ ap (take limit) (append_assoc found defs (all_matches p query m)))
      ]
    ]

take_short {ℓ} : {A : Type ℓ} (n : ℕ) (xs : List A) → length xs ≤ n → take n xs ≡ xs
take_short zero [] h = refl
take_short zero (x ∷ xs) h = absurd (omega arith)
take_short (suc n) [] h = refl
take_short (suc n) (x ∷ xs) h = ap (λ zs. x ∷ zs) (take_short n xs (omega arith))

-- The search without tree-sitter, which stops as soon as it has enough and then cuts what is over,
-- gives the first `limit` of all definitions whose names match.
pub search_basic_lem :
    (p : Printer) (query : Text) (limit : ℕ) (m : Assoc (List Definition))
    → search_basic p query limit m ≡ take limit (all_matches p query m)
unfolding search_basic
search_basic_lem p query limit m =
    let found = find_matches p query limit [] m in
    elim (Bool-cases (ltb limit (length found))) [
      | inl over ↦ rw over (take-find_matches p query limit [] m)
      | inr fits ↦ rw fits (
          sym (take_short limit found (ground (arith, fits)))
          ∙ take-find_matches p query limit [] m)
    ]
