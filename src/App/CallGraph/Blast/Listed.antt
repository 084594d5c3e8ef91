-- ===== src/App/CallGraph/Blast/Listed.antt =====
-- app/indexer_callgraph.go, GetBlastRadius: symbols that are queued, seen and listed.
use claude_squad_ide.Base.{
  ℕ, ◌≤◌, ◌≡◌, refl, ap, Bool, true, false, ◌&&◌, List, [], ◌∷◌, ◌++◌, Option, none, some, Text,
  any, text_eq, leb, ◌==◌, arith, leb→le,
}
use claude_squad_ide.App.CallGraph.{Reference}
use claude_squad_ide.App.CallGraph.Blast.{DependentInfo, Queue, seen_by}

pub any-append_left {ℓ} :
    {A : Type ℓ} (p : A → Bool) (xs ys : List A) → any p xs ≡ true → any p (xs ++ ys) ≡ true
any-append_left p [] ys h = cc
any-append_left p (x ∷ xs) ys h = ground (arith, any-append_left p xs ys)

pub any-append_right {ℓ} :
    {A : Type ℓ} (p : A → Bool) (xs ys : List A) → any p ys ≡ true → any p (xs ++ ys) ≡ true
any-append_right p [] ys h = h
any-append_right p (x ∷ xs) ys h = ground (arith, any-append_right p xs ys h)

abbrev pub has_caller : Text → List Reference → Bool
has_caller c rs = any (λ r. text_eq r.caller c) rs

abbrev pub queued : Text → ℕ → Queue → Bool
queued v d q = any (λ c. text_eq c.0 v && c.1 == d) q

-- A symbol is listed at a depth or above it.
abbrev pub is_listed : Text → ℕ → List DependentInfo → Bool
is_listed c d xs = any (λ x. text_eq x.symbol c && leb x.depth d) xs

pub seen_below :
    (depth d : ℕ) (o : Option ℕ) → seen_by depth o ≡ false → seen_by d o ≡ true → depth ≤ d
seen_below depth d none e h = cc
seen_below depth d (some k) e h = ground (arith, e, h)

abbrev or_else_nat : ℕ → Option ℕ → ℕ
or_else_nat a none = a
or_else_nat a (some b) = b

pub some_injective : (a b : ℕ) → some a ≡ some b → a ≡ b
some_injective a b h = ap (or_else_nat a) h

abbrev pub or_else_search {ℓ} : {A : Type ℓ} → A → Option A → A
or_else_search s none = s
or_else_search s (some t) = t

pub seen_some : (d : ℕ) (o : Option ℕ) → seen_by d o ≡ true → (x : ℕ) × (o ≡ some x) × (x ≤ d)
seen_some d none h = cc
seen_some d (some x) h = (x, refl, leb→le x d h)

pub listed_deeper :
    (c : Text) (d e : ℕ) (xs : List DependentInfo)
    → d ≤ e
    → is_listed c d xs ≡ true
    → is_listed c e xs ≡ true
listed_deeper c d e [] h l = l
listed_deeper c d e (x ∷ xs) h l = ground (arith, h, l, listed_deeper c d e xs h)
