-- ===== src/App/CallGraph/Sorting.antt =====
-- app/indexer_callgraph.go: the loop that sorts results by score, which FindDeadCode,
-- ComputeCentrality and ComputePageRank have in common.
use claude_squad_ide.Base.{
  ℕ, zero, suc, ◌≡◌, refl, Bool, true, false, List, [], ◌∷◌, arith, ◌≤◌, length, All, Bool-cases,
  inl, inr, ap, any, ◌∙◌, ◌||◌, if◌then◌else◌,
}
use mathlib.Core.List.{Perm}
use mathlib.Core.List.Perm

module _ {ℓ} {A : Type ℓ} (above : A → A → Bool) where
  -- The inner loop over `j`: `x` is `results[i]`, and each element above it changes places with it.
  unfoldable pub settle : A → List A → A × List A
  settle x [] = (x, [])
  settle x (y ∷ ys) =
      let up = settle y ys in
      let stay = settle x ys in if above y x then (up.0, x ∷ up.1) else (stay.0, y ∷ stay.1)

  -- The outer loop over `i`, for a slice of at most `n` elements.
  unfoldable pub sort_from : ℕ → List A → List A
  unfolding settle
  sort_from n [] = []
  sort_from zero (x ∷ xs) = x ∷ xs
  sort_from (suc n) (x ∷ xs) = (settle x xs).0 ∷ sort_from n (settle x xs).1

  unfoldable pub sort : List A → List A
  unfolding sort_from
  sort xs = sort_from (length xs) xs

  -- Nothing stands above an earlier element.
  abbrev pub IsDescending : List A → Type ℓ
  IsDescending [] = Unit
  IsDescending (x ∷ xs) = All (λ y. above y x ≡ false) xs × IsDescending xs

  settle-perm : (x : A) (xs : List A) → Perm ((settle x xs).0 ∷ (settle x xs).1) (x ∷ xs)
  unfolding settle
  settle-perm x [] = Perm.rfl
  settle-perm x (y ∷ ys) = elim (Bool-cases (above y x)) [
    | inl e ↦
        rw e (
          Perm.trans (Perm.swap x (settle y ys).0 (settle y ys).1) (Perm.cons x (settle-perm y ys)))
    | inr e ↦ rw e (
        Perm.trans (Perm.swap y (settle x ys).0 (settle x ys).1)
          (Perm.trans (Perm.cons y (settle-perm x ys)) (Perm.swap x y ys)))
  ]

  length-settle : (x : A) (xs : List A) → length (settle x xs).1 ≡ length xs
  unfolding settle
  length-settle x [] = refl
  length-settle x (y ∷ ys) = ground (arith, length-settle x ys, length-settle y ys)

  settle-All {κ} :
      (P : A → Type κ) (x : A) (xs : List A)
      → P x
      → All P xs
      → P (settle x xs).0 × All P (settle x xs).1
  unfolding settle
  settle-All P x [] h a = (h, tt)
  settle-All P x (y ∷ ys) h a = elim (Bool-cases (above y x)) [
    | inl e ↦ rw e (let r = settle-All P y ys a.0 a.1 in (r.0, (h, r.1)))
    | inr e ↦ rw e (let r = settle-All P x ys h a.1 in (r.0, (a.0, r.1)))
  ]

  any-settle :
      (p : A → Bool) (x : A) (xs : List A)
      → (p (settle x xs).0 || any p (settle x xs).1) ≡ (p x || any p xs)
  unfolding settle
  any-settle p x [] = refl
  any-settle p x (y ∷ ys) = elim (Bool-cases (above y x)) [
    | inl e ↦ rw e (ground (arith, any-settle p y ys))
    | inr e ↦ rw e (ground (arith, any-settle p x ys))
  ]

  any-sort_from : (p : A → Bool) (n : ℕ) (xs : List A) → any p (sort_from n xs) ≡ any p xs
  unfolding sort_from
  any-sort_from p n [] = refl
  any-sort_from p zero (x ∷ xs) = refl
  any-sort_from p (suc n) (x ∷ xs) =
      ap (λ b. p (settle x xs).0 || b) (any-sort_from p n (settle x xs).1) ∙ any-settle p x xs

  pub any-sort : (p : A → Bool) (xs : List A) → any p (sort xs) ≡ any p xs
  unfolding sort
  any-sort p xs = any-sort_from p (length xs) xs

  sort_from-All {κ} : (P : A → Type κ) (n : ℕ) (xs : List A) → All P xs → All P (sort_from n xs)
  unfolding sort_from
  sort_from-All P n [] a = tt
  sort_from-All P zero (x ∷ xs) a = a
  sort_from-All P (suc n) (x ∷ xs) a =
      let r = settle-All P x xs a.0 a.1 in (r.0, sort_from-All P n (settle x xs).1 r.1)

  sort_from-perm : (n : ℕ) (xs : List A) → Perm (sort_from n xs) xs
  unfolding sort_from
  sort_from-perm n [] = Perm.rfl
  sort_from-perm zero (x ∷ xs) = Perm.rfl
  sort_from-perm (suc n) (x ∷ xs) =
      Perm.trans (Perm.cons (settle x xs).0 (sort_from-perm n (settle x xs).1)) (settle-perm x xs)

  module _ (asym : (x y : A) → above x y ≡ true → above y x ≡ false)
      (trans : (x y z : A) → above y x ≡ false → above z y ≡ false → above z x ≡ false) where
    above_self : (x : A) → above x x ≡ false
    above_self x = elim (Bool-cases (above x x)) [ inl e ↦ asym x x e | inr e ↦ e ]

    settle-top :
        (x : A) (xs : List A)
        → (above x (settle x xs).0 ≡ false)
          × All (λ y. above y (settle x xs).0 ≡ false) (settle x xs).1
    unfolding settle
    settle-top x [] = (above_self x, tt)
    settle-top x (y ∷ ys) = elim (Bool-cases (above y x)) [
      | inl e ↦ rw e (
          let r = settle-top y ys in
          let h = trans (settle y ys).0 y x r.0 (asym y x e) in (h, (h, r.1)))
      | inr e ↦ rw e (let r = settle-top x ys in (r.0, (trans (settle x ys).0 x y r.0 e, r.1)))
    ]

    sort_from-IsDescending : (n : ℕ) (xs : List A) → length xs ≤ n → IsDescending (sort_from n xs)
    unfolding sort_from
    sort_from-IsDescending n [] h = tt
    sort_from-IsDescending zero (x ∷ xs) h = absurd (omega arith)
    sort_from-IsDescending (suc n) (x ∷ xs) h = (
      sort_from-All _ n (settle x xs).1 (settle-top x xs).1,
      sort_from-IsDescending n (settle x xs).1 (omega (arith, length-settle x xs)),
    )

    -- For a comparison that is asymmetric and whose negation is transitive, the loop returns the same
    -- elements, each as often, with none above an earlier one.
    pub sort_lem : (xs : List A) → Perm (sort xs) xs × IsDescending (sort xs)
    unfolding sort
    sort_lem xs =
        (sort_from-perm (length xs) xs, sort_from-IsDescending (length xs) xs (omega arith))
