-- ===== src/App/Index/Changes/Complete.antt =====
-- app/indexer_git.go: every symbol that a hunk touches is among the results, and none twice.
use claude_squad_ide.Base.{
  ℕ, ◌≡◌, refl, ap, Bool, true, false, not, ◌&&◌, ◌||◌, List, [], ◌∷◌, ◌++◌, codes, Assoc, leb,
  ◌==◌, if◌then◌else◌, Option, none, some, Text, text_eq, text_eq_iff, any, All, if_intro, arith,
  is_some,
}
use claude_squad_ide.Session.Instance.World.{ok}
use claude_squad_ide.App.CallGraph.DeadCode.{Symbol}
use claude_squad_ide.App.Index.Changes.{
  DiffHunk, ChangedSymbol, ChangeType, get_change_type, changed, visited, changed_symbols,
  get_changed_symbols, with_symbols, with_names, pairs_met,
}

-- The line is one of those from the first of the symbol to its last, which is its first if there is
-- none given.
abbrev pub lies_in : Symbol → ℕ → Bool
lies_in sym line =
    leb sym.line line && leb line (if sym.end_line == 0 then sym.line else sym.end_line)

-- The name under which a symbol is reported once.
abbrev pub label : Symbol → Text
label sym = sym.file ++ (codes ":" ++ sym.name)

-- Whether a hunk of the symbol's file adds or removes a line that falls in the symbol.
abbrev pub touches : DiffHunk → Symbol → Bool
touches hunk sym =
    text_eq sym.file hunk.file
    && (any (lies_in sym) hunk.added_lines || any (lies_in sym) hunk.removed_lines)

abbrev pub has_label : Text → List ChangedSymbol → Bool
has_label k cs = any (λ c. text_eq (label c.symbol) k) cs

abbrev Covers : List Text → List (DiffHunk × Symbol) → List ChangedSymbol → Type 0
Covers seen pairs cs =
    All
      (λ (hunk, sym).
        touches hunk sym ≡ true
        → (any (λ k. text_eq k (label sym)) seen || has_label (label sym) cs) ≡ true)
      pairs

-- The keys of the results are not among the seen ones, and differ.
abbrev pub AreNew : List Text → List ChangedSymbol → Type 0
AreNew seen [] = Unit
AreNew seen (c ∷ cs) =
    (any (λ k. text_eq k (label c.symbol)) seen ≡ false) × AreNew (label c.symbol ∷ seen) cs

visited-AreNew :
    (seen : List Text) (o : Option ChangeType) (hunk : DiffHunk) (sym : Symbol)
    (skip more : List ChangedSymbol)
    → any (λ k. text_eq k (label sym)) seen ≡ false
    → AreNew seen skip
    → AreNew (label sym ∷ seen) more
    → AreNew seen (visited o hunk sym skip more)
visited-AreNew seen none hunk sym skip more f a b = a
visited-AreNew seen (some c) hunk sym skip more f a b = (f, b)

changed_symbols-AreNew :
    (seen : List Text) (pairs : List (DiffHunk × Symbol)) → AreNew seen (changed_symbols seen pairs)
unfolding changed_symbols get_change_type
changed_symbols-AreNew seen [] = tt
changed_symbols-AreNew seen ((hunk, sym) ∷ pairs) =
    let skip = changed_symbols-AreNew seen pairs in
    if_intro (AreNew seen)
      (not (text_eq sym.file hunk.file) || any (λ k. text_eq k (label sym)) seen) _ _ (λ _. skip)
      (λ fresh.
        visited-AreNew seen (get_change_type sym hunk) hunk sym _ _ (ground (arith, fresh)) skip
          (changed_symbols-AreNew (label sym ∷ seen) pairs))

-- What covers the rest after a new result covers it together with the result.
Covers-shift :
    (k : Text) (seen : List Text) (pairs : List (DiffHunk × Symbol)) (c : ChangedSymbol)
    (cs : List ChangedSymbol)
    → label c.symbol ≡ k
    → Covers (k ∷ seen) pairs cs
    → Covers seen pairs (c ∷ cs)
Covers-shift k seen [] c cs e a = tt
Covers-shift k seen ((hunk, sym) ∷ pairs) c cs e a = (
  λ t. ground (arith, a.0 t, ap (λ x. text_eq x (label sym)) e),
  Covers-shift k seen pairs c cs e a.1,
)

visited-Covers :
    (seen : List Text) (o : Option ChangeType) (hunk : DiffHunk) (sym : Symbol)
    (pairs : List (DiffHunk × Symbol)) (skip more : List ChangedSymbol)
    → (touches hunk sym ≡ true → is_some o ≡ true)
    → Covers seen pairs skip
    → Covers (label sym ∷ seen) pairs more
    → Covers seen ((hunk, sym) ∷ pairs) (visited o hunk sym skip more)
visited-Covers seen none hunk sym pairs skip more t a b = (λ u. absurd (ground (arith, t u)), a)
visited-Covers seen (some c) hunk sym pairs skip more t a b = (
  λ u. ground (arith, (text_eq_iff (label sym) (label sym)).1 refl),
  Covers-shift (label sym) seen pairs (changed hunk sym c) more refl b,
)

touches-change :
    (hunk : DiffHunk) (sym : Symbol)
    → touches hunk sym ≡ true
    → is_some (get_change_type sym hunk) ≡ true
unfolding get_change_type
touches-change hunk sym t = ground (arith, t)

changed_symbols-Covers :
    (seen : List Text) (pairs : List (DiffHunk × Symbol))
    → Covers seen pairs (changed_symbols seen pairs)
unfolding changed_symbols
changed_symbols-Covers seen [] = tt
changed_symbols-Covers seen ((hunk, sym) ∷ pairs) =
    let skip = changed_symbols-Covers seen pairs in
    if_intro (Covers seen ((hunk, sym) ∷ pairs))
      (not (text_eq sym.file hunk.file) || any (λ k. text_eq k (label sym)) seen) _ _
      (λ e. (λ t. ground (arith, e, t), skip))
      (λ _.
        visited-Covers seen (get_change_type sym hunk) hunk sym pairs _ _ (touches-change hunk sym)
          skip (changed_symbols-Covers (label sym ∷ seen) pairs))

module _ (P : DiffHunk × Symbol → Type 0) where
  All-with_symbols :
      (hunk : DiffHunk) (syms : List Symbol) (more : List (DiffHunk × Symbol))
      → All P (with_symbols hunk syms more)
      → All (λ sym. P (hunk, sym)) syms × All P more
  All-with_symbols hunk [] more a = (tt, a)
  All-with_symbols hunk (sym ∷ syms) more a =
      let r = All-with_symbols hunk syms more a.1 in ((a.0, r.0), r.1)

  All-with_names :
      (hunk : DiffHunk) (m : Assoc (List Symbol)) (more : List (DiffHunk × Symbol))
      → All P (with_names hunk m more)
      → All (λ (name, syms). All (λ sym. P (hunk, sym)) syms) m × All P more
  All-with_names hunk [] more a = (tt, a)
  All-with_names hunk ((name, syms) ∷ m) more a =
      let first = All-with_symbols hunk syms (with_names hunk m more) a in
      let r = All-with_names hunk m more first.1 in ((first.0, r.0), r.1)

  All-pairs_met :
      (hunks : List DiffHunk) (m : Assoc (List Symbol))
      → All P (pairs_met hunks m)
      → All (λ hunk. All (λ (name, syms). All (λ sym. P (hunk, sym)) syms) m) hunks
  unfolding pairs_met
  All-pairs_met [] m a = tt
  All-pairs_met (hunk ∷ hunks) m a =
      let r = All-with_names hunk m (pairs_met hunks m) a in (r.0, All-pairs_met hunks m r.1)

-- If the diff can be read, GetChangedSymbols returns a list that has, for every hunk and every symbol
-- of the index such that the hunk is of the symbol's file and adds or removes a line inside it, a
-- symbol of the same `file:name`, and that has no `file:name` twice.
pub get_changed_symbols_lem :
    (hunks : List DiffHunk) (m : Assoc (List Symbol))
    → (cs : List ChangedSymbol) × (get_changed_symbols (ok hunks) m ≡ ok cs)
      × All
          (λ hunk.
            All
              (λ (name, syms).
                All (λ sym. touches hunk sym ≡ true → has_label (label sym) cs ≡ true) syms)
              m)
          hunks
      × AreNew [] cs
unfolding get_changed_symbols
get_changed_symbols_lem hunks m =
    let pairs = pairs_met hunks m in
    (
      changed_symbols [] pairs,
      refl,
      All-pairs_met
          (λ (hunk, sym).
            touches hunk sym ≡ true → has_label (label sym) (changed_symbols [] pairs) ≡ true)
          hunks m (changed_symbols-Covers [] pairs),
      changed_symbols-AreNew [] pairs,
    )
