-- ===== src/Session/Git/Requests.antt =====
-- session/instance.go: what an instance is asked for through its process and its worktree.
use claude_squad_ide.Base.{
  ◌≡◌, refl, ◌∙◌, Bool, false, not, ◌&&◌, ◌||◌, List, [], ◌∷◌, ◌++◌, Option, none, some, Text,
  codes, text_eq, is_empty, contains, map, All, Assoc, lookup, insert, delete, lookup-insert,
  lookup-delete, if_false, if◌then◌else◌,
}
use claude_squad_ide.Session.Instance.World.{Env, Worktree, Failure}
use claude_squad_ide.Session.Instance.{Instance, is_paused, DiffStats}
use claude_squad_ide.Session.Git.Command.{Shell}
use claude_squad_ide.Session.Git.Worktrees.{retry_submodule}
use claude_squad_ide.Session.Git.Diff.{diff}

abbrev pub is_running : Instance → Bool
is_running i = i.started && i.process_manager && not (is_empty i.process_id)

unfoldable pub preview : {W : Type 0} → Env W → Instance → W → Text
preview env i w =
    if is_running i && not (is_paused i.status) then env.get_content i.process_id w else []

-- `write` is that of the process manager.
unfoldable pub send_prompt :
    {W : Type 0} → (Text → Text → W → Option Text × W) → Instance → Text → W → Option Text × W
send_prompt write i prompt w =
    let (e, w') = write i.process_id (prompt ++ codes "\n") w in
    if not i.started
    then (some (codes "instance not started"), w)
    else if not i.process_manager || is_empty i.process_id
    then (some (codes "process not initialized"), w)
    else (
      elim e [ none ↦ none | some x ↦ some (codes "error sending prompt to process: " ++ x) ],
      w',
    )

unfoldable pub send_keys :
    {W : Type 0} → (Text → Text → W → Option Text × W) → Instance → Text → W → Option Text × W
send_keys write i keys w =
    if is_running i && not (is_paused i.status)
    then write i.process_id keys w
    else (some (codes "cannot send keys to instance that has not been started or is paused"), w)

abbrev pub with_stats :
    {W : Type 0} → Instance → (Option Text × DiffStats) × W → Option Text × (Instance × W)
with_stats i ((none, stats), w) = (none, (record i { diff_stats = some stats }, w))
with_stats i ((some e, stats), w) =
    if contains e (codes "base commit SHA not set")
    then (none, (record i { diff_stats = none }, w))
    else (some (codes "failed to get diff stats: " ++ e), (i, w))

abbrev pub worktree_stats :
    {W : Type 0} → Shell W → Instance → Option Worktree → W → Option Text × (Instance × W)
worktree_stats sh i none w = (none, (record i { diff_stats = none }, w))
worktree_stats sh i (some g) w = with_stats i (diff sh g w)

unfoldable pub update_diff_stats :
    {W : Type 0} → Shell W → Instance × W → Option Text × (Instance × W)
unfolding diff
update_diff_stats sh (i, w) =
    if not i.started
    then (none, (record i { diff_stats = none }, w))
    else if is_paused i.status
    then (none, (i, w))
    else worktree_stats sh i i.git_worktree w

-- RetrySubmodules: the failures by name, after the submodules have been tried again.
abbrev pub failures_by_name : List Failure → Assoc Failure → Assoc Failure
failures_by_name [] m = m
failures_by_name (f ∷ fs) m = failures_by_name fs (insert f.name f m)

abbrev pub retried : Text → Option Failure → Assoc Failure → Assoc Failure
retried name none m = delete name m
retried name (some f) m = insert name f m

unfoldable pub retry_all :
    {W : Type 0} → Shell W → Worktree → List Text → Assoc Failure × W → Assoc Failure × W
unfolding retry_submodule
retry_all sh g [] s = s
retry_all sh g (name ∷ names) (m, w) =
    let (f, w') = retry_submodule sh g name w in retry_all sh g names (retried name f m, w')

-- `sorted` is the sort by name.
abbrev pub retry_in :
    {W : Type 0}
    → Shell W
    → (List Failure → List Failure)
    → List Text
    → Option Worktree
    → Instance × W
    → Option Text × (Instance × W)
retry_in sh sorted names none (i, w) = (some (codes "instance has no git worktree"), (i, w))
retry_in sh sorted names (some g) (i, w) =
    let (m, w') = retry_all sh g names (failures_by_name i.submodule_failures [], w) in
    (none, (record i { submodule_failures = sorted (map (λ (name, f). f) m) }, w'))

unfoldable pub retry_submodules :
    {W : Type 0}
    → Shell W
    → (List Failure → List Failure)
    → List Text
    → Instance × W
    → Option Text × (Instance × W)
unfolding retry_all
retry_submodules sh sorted names (i, w) = retry_in sh sorted names i.git_worktree (i, w)

retried-other :
    (name other : Text) (o : Option Failure) (m : Assoc Failure)
    → text_eq name other ≡ false
    → lookup other (retried name o m) ≡ lookup other m
retried-other name other none m n = lookup-delete name other m ∙ if_false (text_eq name other) _ _ n
retried-other name other (some f) m n =
    lookup-insert name other f m ∙ if_false (text_eq name other) _ _ n

-- The failure of a submodule that is not tried again stays, and none is made up for it.
pub retry_all-other :
    {W : Type 0} (sh : Shell W) (g : Worktree) (names : List Text) (other : Text)
    (m : Assoc Failure) (w : W)
    → All (λ name. text_eq name other ≡ false) names
    → lookup other (retry_all sh g names (m, w)).0 ≡ lookup other m
unfolding retry_all
retry_all-other sh g [] other m w a = refl
retry_all-other sh g (name ∷ names) other m w a =
    retry_all-other sh g names other _ _ a.1
    ∙ retried-other name other (retry_submodule sh g name w).0 m a.0
