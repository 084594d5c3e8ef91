-- ===== src/Session/Git/Names/Fresh.antt =====
-- session/git/worktree.go: deduplicateBranchName picks the first name that is free.
use claude_squad_ide.Base.{
  ℕ, zero, suc, ◌+◌, ◌≤◌, ◌<◌, ◌≡◌, refl, sym, subst, if_true, if_false, if_intro, ◌==◌, ==_iff,
  Bool, true, false, Text, arith, Bool-cases, ◌⊎◌, inl, inr,
}
use claude_squad_ide.Session.Git.Names.{
  branch_exists, candidate, first_free, deduplicate_branch_name,
}

module _ (succeeds : Text → Bool) (name : Text) where
  abbrev pub Taken : ℕ → ℕ → Type 0
  Taken i n = (k : ℕ) → i ≤ k → k < n → branch_exists succeeds (candidate name k) ≡ true

  -- `r` is the first free one of the name's numbered forms from `i` to before `n`, or the name if
  -- none of them is free.
  abbrev pub FirstFree : ℕ → ℕ → Text → Type 0
  FirstFree i n r =
      ((k : ℕ) × (r ≡ candidate name k)
        × (i ≤ k)
        × (k < n)
        × (branch_exists succeeds r ≡ false)
        × Taken i k)
      ⊎ (r ≡ name) × Taken i n

  Taken-step :
      (i n : ℕ) → branch_exists succeeds (candidate name i) ≡ true → Taken (i + 1) n → Taken i n
  Taken-step i n e t k h l = elim (Bool-cases (k == i)) [
    | inl p ↦
        subst (λ j. branch_exists succeeds (candidate name j) ≡ true) (sym ((==_iff k i).0 p)) e
    | inr p ↦ t k (ground (arith, p)) l
  ]

  FirstFree-step :
      (i n : ℕ) (r : Text)
      → branch_exists succeeds (candidate name i) ≡ true
      → FirstFree (i + 1) n r
      → FirstFree i n r
  FirstFree-step i n r e (inl (k, same, low, high, free, t)) =
      inl (k, same, omega (arith, low), high, free, Taken-step i k e t)
  FirstFree-step i n r e (inr (same, t)) = inr (same, Taken-step i n e t)

  first_free-FirstFree : (n i m : ℕ) → i + n ≡ m → FirstFree i m (first_free succeeds name n i)
  unfolding first_free
  first_free-FirstFree zero i m h = inr (refl, λ k low high. absurd (omega arith))
  first_free-FirstFree (suc n) i m h =
      if_intro (FirstFree i m) (branch_exists succeeds (candidate name i)) _ _
        (λ e. FirstFree-step i m _ e (first_free-FirstFree n (i + 1) m (omega arith)))
        (λ e. inl (i, refl, omega arith, omega arith, e, λ k low high. absurd (omega arith)))

  -- A free name is kept. Otherwise the result is the first of the forms `name-1` to `name-100` that
  -- is free, all before it being taken; only if all of them are taken is it the taken name itself.
  pub deduplicate_branch_name-FirstFree :
      ((branch_exists succeeds name ≡ false) → deduplicate_branch_name succeeds name ≡ name)
      × ((branch_exists succeeds name ≡ true)
          → FirstFree 1 101 (deduplicate_branch_name succeeds name))
  unfolding deduplicate_branch_name
  deduplicate_branch_name-FirstFree = (
    if_false (branch_exists succeeds name) _ _,
    λ e.
        subst (FirstFree 1 101) (sym (if_true (branch_exists succeeds name) _ _ e))
          (first_free-FirstFree 100 1 101 refl),
  )
