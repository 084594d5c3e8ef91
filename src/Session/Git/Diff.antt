-- ===== src/Session/Git/Diff.antt =====
-- session/git/diff.go: the diff of a worktree, and how many lines it adds and removes.
use claude_squad_ide.Base.{
  ℕ, suc, Bool, not, ◌&&◌, List, [], ◌∷◌, Option, none, some, Text, codes, has_prefix, split,
  is_empty, ◌==◌, if◌then◌else◌,
}
use claude_squad_ide.Session.Instance.World.{Worktree}
use claude_squad_ide.Session.Instance.{DiffStats}
use claude_squad_ide.Session.Git.Command.{Shell, run_git}

-- The added and the removed lines; the lines that name the files are not counted.
unfoldable pub count_lines : List Text → ℕ × ℕ
count_lines [] = (0, 0)
count_lines (l ∷ ls) =
    let (added, removed) = count_lines ls in
    if has_prefix l (codes "+") && not (has_prefix l (codes "+++"))
    then (suc added, removed)
    else if has_prefix l (codes "-") && not (has_prefix l (codes "---"))
    then (added, suc removed)
    else (added, removed)

abbrev pub no_stats : DiffStats
no_stats = record { added = 0; removed = 0; content = [] }

abbrev pub counted : {W : Type 0} → (Text × Option Text) × W → (Option Text × DiffStats) × W
counted ((out, some e), w) = ((some e, no_stats), w)
counted ((out, none), w) =
    let (added, removed) = count_lines (split b'\n' out) in
    ((none, record { added = added; removed = removed; content = out }), w)

abbrev pub diffed :
    {W : Type 0} → Shell W → Worktree → (Text × Option Text) × W → (Option Text × DiffStats) × W
diffed sh g ((out, some e), w) = ((some e, no_stats), w)
diffed sh g ((out, none), w) =
    counted
      (run_git sh g.worktree_path (codes "--no-pager" ∷ codes "diff" ∷ g.base_commit_sha ∷ []) w)

-- The error of the statistics, if any, and the statistics.
unfoldable pub diff : {W : Type 0} → Shell W → Worktree → W → (Option Text × DiffStats) × W
unfolding count_lines
diff sh g w = diffed sh g (run_git sh g.worktree_path (codes "add" ∷ codes "-N" ∷ codes "." ∷ []) w)

abbrev pub is_empty_diff : DiffStats → Bool
is_empty_diff d = (d.added == 0) && (d.removed == 0) && is_empty d.content
