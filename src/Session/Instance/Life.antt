-- ===== src/Session/Instance/Life.antt =====
-- session/instance.go: Start, Kill, Pause, Resume, and the calls that they guard.
use claude_squad_ide.Base.{
  ◌==◌, ℕ, Bool, true, false, ◌&&◌, not, List, [], ◌∷◌, ◌++◌, Option, none, some, is_empty, Text,
  codes, if◌then◌else◌,
}
use claude_squad_ide.Session.Instance.World.{Env, Worktree, Failure, Reply, ok, err}
use claude_squad_ide.Session.Instance.{
  Status, running, paused, is_paused, Instance, Error, empty_title, process_manager_not_set,
  not_started, already_paused, not_paused, branch_checked_out, no_worktree, already_started, caused,
  caused_twice, Op, combine_errors, clean_orphans, spawn_process,
}

abbrev pub kill_process : {W : Type 0} → Env W → Instance → W → Option Text × W
kill_process env i w =
    if i.process_manager && not (is_empty i.process_id) then env.kill i.process_id w else (none, w)

abbrev pub clear_process : Instance → Instance
clear_process i =
    if i.process_manager && not (is_empty i.process_id) then record i { process_id = [] } else i

abbrev pub cleanup_worktree : {W : Type 0} → Env W → Option Worktree → W → Option Text × W
cleanup_worktree env none w = (none, w)
cleanup_worktree env (some wt) w = env.cleanup wt w

abbrev pub to_list : Option Text → List Text
to_list none = []
to_list (some e) = e ∷ []

unfoldable pub kill : {W : Type 0} → Env W → Op W
kill env (i, w) =
    let (e₁, w₁) = kill_process env i w in
    let (e₂, w₂) = cleanup_worktree env i.git_worktree (clean_orphans env i.git_worktree w₁) in
    if i.started
    then (combine_errors (to_list e₁ ++ to_list e₂), (clear_process i, w₂))
    else (none, (i, w))

-- The branches of Start for a new instance, up to the handler for errors.
abbrev pub set_branch : Instance → Reply Text → Instance
set_branch i (err e) = i
set_branch i (ok b) = if is_empty b then i else record i { branch = b }

abbrev pub set_worktree :
    {W : Type 0} → Instance → Reply (Worktree × Text) × W → Option Error × (Instance × W)
set_worktree i (err e, w) = (some (caused e), (i, w))
set_worktree i (ok (wt, b), w) = (none, (record i { git_worktree = some wt; branch = b }, w))

-- `origin/<default branch>`, and HEAD if that fails.
abbrev pub or_from_head :
    {W : Type 0} → Env W → Instance → Reply (Worktree × Text) × W → Option Error × (Instance × W)
or_from_head env i (err e, w) = set_worktree i (env.new_worktree i.path i.title w)
or_from_head env i (ok r, w) = set_worktree i (ok r, w)

unfoldable pub choose_worktree : {W : Type 0} → Env W → Op W
choose_worktree env (i, w) =
    let (b, w') = env.current_branch i.path w in
    let fetched = env.fetch_branches i.path w in
    if i.in_place
    then (none, (set_branch i b, w'))
    else if not (is_empty i.selected_branch)
    then set_worktree i (env.new_worktree_from_ref i.path i.selected_branch i.title fetched)
    else or_from_head env i (
        env.new_worktree_from_ref i.path (codes "origin/" ++ env.default_branch i.path fetched)
          i.title fetched)

-- The deferred handler: it kills the instance on an error, and marks it started otherwise. Its own
-- error is written to a variable that no one reads any more.
abbrev pub finish_start :
    {W : Type 0} → Env W → Option Error × (Instance × W) → Option Error × (Instance × W)
finish_start env (none, (i, w)) = (none, (record i { started = true }, w))
finish_start env (some e, s) = (some e, (kill env s).1)

abbrev pub use_setup :
    {W : Type 0} → Instance → Reply (List Failure) × (Worktree × W) → Option Error × (Instance × W)
use_setup i (err e, (wt, w)) = (some (caused e), (record i { git_worktree = some wt }, w))
use_setup i (ok fs, (wt, w)) =
    (none, (record i { git_worktree = some wt; submodule_failures = fs }, w))

-- The worktree is set up for a new instance only.
abbrev pub prepare_worktree : {W : Type 0} → Env W → Bool → Option Worktree → Op W
prepare_worktree env first none s = (none, s)
prepare_worktree env false (some wt) s = (none, s)
prepare_worktree env true (some wt) (i, w) = use_setup i (env.setup wt w)

abbrev pub work_dir : Instance → Text
work_dir i =
    if i.in_place
    then i.path
    else (elim i.git_worktree [ none ↦ i.path | some wt ↦ wt.worktree_path ])

abbrev pub failed_cleanup :
    {W : Type 0} → Error → Instance → Option Text × W → Option Error × (Instance × W)
failed_cleanup e i (none, w) = (some e, (i, w))
failed_cleanup e i (some c, w) = (some (caused_twice e c), (i, w))

abbrev pub finish_spawn :
    {W : Type 0} → Env W → Bool → Option Error × (Instance × W) → Option Error × (Instance × W)
finish_spawn env first (none, (i, w)) = (none, (record i { status = running }, w))
finish_spawn env first (some e, (i, w)) = elim i.git_worktree [
  | none ↦ (some e, (i, w))
  | some wt ↦ if first then failed_cleanup e i (env.cleanup wt w) else (some e, (i, w))
]

abbrev pub then_run :
    {W : Type 0} → Option Error × (Instance × W) → Op W → Option Error × (Instance × W)
then_run (some e, s) k = (some e, s)
then_run (none, s) k = k s

-- The part of Start under the handler.
unfoldable pub start_process : {W : Type 0} → Env W → Bool → Op W
start_process env first (i, w) =
    then_run
      (if i.in_place then (none, (i, w)) else prepare_worktree env first i.git_worktree (i, w))
      (λ s. finish_spawn env first (spawn_process env (work_dir s.0) false s))

unfoldable pub start : {W : Type 0} → Env W → Bool → Op W
start env first (i, w) =
    if is_empty i.title
    then (some empty_title, (i, w))
    else then_run (if first then choose_worktree env (i, w) else (none, (i, w)))
        (λ s. finish_start env (start_process env first s))

unfoldable pub force_pause : Instance → Instance
force_pause i = record i { process_id = []; status = paused }

abbrev pub in_place_killed :
    {W : Type 0} → Instance → Option Text × W → Option Error × (Instance × W)
in_place_killed i (some e, w) = (some (caused e), (i, w))
in_place_killed i (none, w) = (none, (record i { process_id = []; status = paused }, w))

-- An error of the kill is logged only.
abbrev pub worktree_killed : {W : Type 0} → Env W → Instance → W → Option Error × (Instance × W)
worktree_killed env i w =
    (none, (record i { process_id = []; status = paused }, clean_orphans env i.git_worktree w))

unfoldable pub pause : {W : Type 0} → Env W → Op W
pause env (i, w) =
    if not i.started
    then (some not_started, (i, w))
    else if is_paused i.status
    then (some already_paused, (i, w))
    else if not i.process_manager
    then (some process_manager_not_set, (i, w))
    else if i.in_place
    then (if is_empty i.process_id
        then (none, (record i { status = paused }, w))
        else in_place_killed i (env.kill i.process_id w))
    else worktree_killed env i (if is_empty i.process_id then w else (env.kill i.process_id w).1)

abbrev pub resumed : {W : Type 0} → Option Error × (Instance × W) → Option Error × (Instance × W)
resumed (some e, s) = (some e, s)
resumed (none, (i, w)) = (none, (record i { status = running }, w))

-- A worktree whose process does not start is cleaned up.
abbrev pub resumed_in :
    {W : Type 0} → Env W → Worktree → Option Error × (Instance × W) → Option Error × (Instance × W)
resumed_in env wt (some e, (i, w)) = failed_cleanup e i (env.cleanup wt w)
resumed_in env wt (none, (i, w)) = (none, (record i { status = running }, w))

-- The worktree after `Setup`, which `use_setup` has put into the instance.
abbrev pub current : Worktree → Option Worktree → Worktree
current wt none = wt
current wt (some wt') = wt'

abbrev pub resume_process : {W : Type 0} → Env W → Worktree → Op W
resume_process env wt (i, w) =
    let wt' = current wt i.git_worktree in
    if i.process_manager
    then resumed_in env wt' (spawn_process env wt'.worktree_path true (i, w))
    else (some process_manager_not_set, (i, w))

abbrev pub resume_checked :
    {W : Type 0} → Env W → Worktree → Instance → Reply Bool × W → Option Error × (Instance × W)
resume_checked env wt i (err e, w) = (some (caused e), (i, w))
resume_checked env wt i (ok true, w) = (some branch_checked_out, (i, w))
resume_checked env wt i (ok false, w) =
    then_run
      (if env.path_exists wt.worktree_path w then (none, (i, w)) else use_setup i (env.setup wt w))
      (resume_process env wt)

-- A nil worktree of an instance that is not in place is a nil dereference in the source.
abbrev pub resume_worktree : {W : Type 0} → Env W → Option Worktree → Op W
resume_worktree env none s = (some no_worktree, s)
resume_worktree env (some wt) (i, w) = resume_checked env wt i (env.is_branch_checked_out wt w)

unfoldable pub resume : {W : Type 0} → Env W → Op W
resume env (i, w) =
    if not i.started
    then (some not_started, (i, w))
    else if not (is_paused i.status)
    then (some not_paused, (i, w))
    else if i.in_place
    then (if i.process_manager
        then resumed (spawn_process env i.path true (i, w))
        else (some process_manager_not_set, (i, w)))
    else resume_worktree env i.git_worktree (i, w)

unfoldable pub set_title : Text → Instance → Option Error × Instance
set_title title i =
    if i.started then (some already_started, i) else (none, record i { title = title })

unfoldable pub get_work_dir : Instance → Text
get_work_dir i = work_dir i

unfoldable pub set_status : Status → Instance → Instance
set_status t i = record i { status = t }

-- `now` is the time, which is never the zero time.
unfoldable pub mark_idle : ℕ → Instance → Instance
mark_idle now i = if i.idle_since == 0 then record i { idle_since = now } else i

unfoldable pub mark_active : Instance → Instance
mark_active i = record i { idle_since = 0 }

unfoldable pub touch_last_viewed : ℕ → Instance → Instance
touch_last_viewed now i = record i { last_viewed = now }

unfoldable pub set_selected_branch : Text → Instance → Instance
set_selected_branch b i = record i { selected_branch = b }
