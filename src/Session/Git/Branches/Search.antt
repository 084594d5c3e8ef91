-- ===== src/Session/Git/Branches/Search.antt =====
-- session/git/worktree_git.go: the results of SearchBranches.
use claude_squad_ide.Base.{
  ℕ, zero, suc, ◌≡◌, ◌≤◌, Bool, true, false, ◌||◌, List, [], ◌∷◌, All, Text, codes, arith, text_eq,
  trim_space, contains, is_empty, split, any, length, if_intro,
}
use claude_squad_ide.Session.Git.Branches.{
  search_branches, collect_branches, is_skipped, max_branch_search_results,
}

-- No text stands twice in the list.
abbrev pub AreDistinct : List Text → Type 0
AreDistinct [] = Unit
AreDistinct (t ∷ ts) = All (λ u. text_eq t u ≡ false) ts × AreDistinct ts

-- What the list that comes after `seen` has to be.
abbrev IsSelected : (Text → Bool) → ℕ → List Text → List Text → Type 0
IsSelected wanted room seen bs =
    (length bs ≤ room)
    × All (λ b. (wanted b ≡ true) × ((is_empty b || contains b (codes "HEAD")) ≡ false)) bs
    × All (λ b. any (λ s. text_eq s b) seen ≡ false) bs
    × AreDistinct bs

not_seen_tail :
    (n : Text) (seen bs : List Text)
    → All (λ b. any (λ s. text_eq s b) (n ∷ seen) ≡ false) bs
    → All (λ b. text_eq n b ≡ false) bs × All (λ b. any (λ s. text_eq s b) seen ≡ false) bs
not_seen_tail n seen [] a = (tt, tt)
not_seen_tail n seen (b ∷ bs) a =
    let e = a.0 in
    let (x, y) = not_seen_tail n seen bs a.1 in ((ground (arith, e), x), (ground (arith, e), y))

collect_branches-IsSelected :
    (wanted : Text → Bool) (room : ℕ) (seen ls : List Text)
    → IsSelected wanted room seen (collect_branches wanted room seen ls)
unfolding collect_branches
collect_branches-IsSelected wanted zero seen ls = (omega arith, tt, tt, tt)
collect_branches-IsSelected wanted (suc room) seen [] = (omega arith, tt, tt, tt)
collect_branches-IsSelected wanted (suc room) seen (l ∷ ls) =
    let name = trim_space l in
    if_intro (IsSelected wanted (suc room) seen) (is_skipped seen name) _ _
      (λ _. collect_branches-IsSelected wanted (suc room) seen ls)
      (λ fresh.
        if_intro (IsSelected wanted (suc room) seen) (wanted name) _ _
          (λ w.
            let (a, b, c, d) = collect_branches-IsSelected wanted room (name ∷ seen) ls in
            let (n, s) = not_seen_tail name seen _ c in
            (
              (omega (arith, a)),
              ((w, ground (arith, fresh)), b),
              (ground (arith, fresh), s),
              (n, d),
            ))
          (λ _.
            let (a, b, c, d) = collect_branches-IsSelected wanted (suc room) (name ∷ seen) ls in
            (a, b, (not_seen_tail name seen _ c).1, d)))

-- Whatever `git branch -a` prints, SearchBranches lists at most 50 branches, none of them twice,
-- each not empty, without HEAD in it, and with the filter in it, up to case.
pub search_branches_lem :
    (to_lower : Text → Text) (filter output : Text)
    → (length (search_branches to_lower filter output) ≤ 50)
      × All
          (λ b.
            ((is_empty filter || contains (to_lower b) (to_lower filter)) ≡ true)
            × ((is_empty b || contains b (codes "HEAD")) ≡ false))
          (search_branches to_lower filter output)
      × AreDistinct (search_branches to_lower filter output)
unfolding search_branches
search_branches_lem to_lower filter output =
    let (a, b, c, d) =
      collect_branches-IsSelected
        (λ name. is_empty filter || contains (to_lower name) (to_lower filter))
        max_branch_search_results [] (split b'\n' (trim_space output)) in
    (a, b, d)
