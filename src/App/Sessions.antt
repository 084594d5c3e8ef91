-- ===== src/App/Sessions.antt =====
-- app/bindings.go: the map of open sessions, and what the window asks of it.
--
-- The lock makes most operations atomic. StartSession, KillSession and the two checks for idle
-- sessions let go of it in between, and are modelled for a run in which no other operation falls
-- there.
pub mod Api
pub mod Idle
pub mod Outcomes
mod Tests
use claude_squad_ide.Base.{
  ℕ, ◌-◌, Bool, true, false, not, ◌&&◌, ◌||◌, List, [], ◌∷◌, ◌++◌, Option, none, some, Text, codes,
  text_eq, is_empty, has_suffix, keep, map, any, Assoc, lookup, insert, delete, ltb, ◌==◌,
  if◌then◌else◌,
}
use claude_squad_ide.Session.Instance.World.{Env, Worktree, Reply, ok, err}
use claude_squad_ide.Session.Instance.{Status, ready, loading, is_paused, Instance, Error}
use claude_squad_ide.Session.Instance.Life.{
  start, pause, resume, kill, set_status, mark_idle, mark_active, touch_last_viewed, force_pause,
}
use claude_squad_ide.Session.Storage.{Store, save_instances}
use claude_squad_ide.App.Sessions.Api.{
  SessionApi, Desk, CreateOptions, Fault, session_not_found, no_process, instance_failed,
  other_failed, Answer, done, fault, Call, with_instance, stop_indexer, remove_session,
  get_worktree_path, start_indexer, index_unless,
}

module _ {W J : Type 0} (d : Desk W J) where
  -- An error of the storage is logged only.
  unfoldable pub save_instances_locked : SessionApi → W → W
  save_instances_locked api w =
      if api.dirty
      then (save_instances d.storage (d.now w) (map (λ (id, i). i) api.instances) w).1
      else w

  -- `api.dirty = true`, a save, and the answer.
  abbrev pub saved : {A : Type 0} → A → Call W A
  saved a (api, w) =
      let api' : SessionApi = record api { dirty = true } in
      (done a, (api', save_instances_locked api' w))

  abbrev pub configured : Option Text → Instance × W → Instance × W
  configured none (i, w) = (i, w)
  configured (some config) (i, w) =
      if has_suffix i.program (codes "claude")
      then (
        record i { mcp_config = config },
        if is_empty (get_worktree_path i) then w else d.write_guidance (get_worktree_path i) w,
      )
      else (i, w)

  unfoldable pub set_mcp_config : Instance × W → Instance × W
  set_mcp_config (i, w) = configured (d.mcp_config i.title) (i, w)

  -- CreateSession
  abbrev pub new_instance : CreateOptions → Text → ℕ → Text → Instance
  new_instance opts program now path = record {
    title = opts.title;
    path = path;
    branch = [];
    status = ready;
    program = program;
    height = 0;
    width = 0;
    created_at = now;
    updated_at = now;
    auto_yes = opts.auto_yes;
    idle_since = 0;
    last_viewed = 0;
    auto_paused = false;
    diff_stats = none;
    claude_session_id = [];
    host_id = opts.host_id;
    mcp_config = [];
    selected_branch = opts.branch;
    in_place = opts.in_place;
    started = false;
    process_manager = true;
    process_id = [];
    git_worktree = none;
    submodule_failures = [];
  }

  abbrev pub created : CreateOptions → Reply Text → Call W Text
  created opts (err e) s = (fault (other_failed e), s)
  created opts (ok path) (api, w) =
      let program = if is_empty opts.program then d.default_program else opts.program in
      let i = new_instance opts program (d.now w) path in
      saved i.title (with_instance i.title i api, w)

  abbrev pub connected :
      CreateOptions → SessionApi → Option Text × W → Answer Text × (SessionApi × W)
  connected opts api (some e, w) = (fault (other_failed e), (api, w))
  connected opts api (none, w) = created opts (d.absolute opts.host_id opts.path w) (api, w)

  unfoldable pub create_session : CreateOptions → Call W Text
  unfolding save_instances_locked
  create_session opts (api, w) =
      connected opts api (if is_empty opts.host_id then (none, w) else d.connect opts.host_id w)

  -- OpenSession, from its end: the answer, the indexer, a paused session, a lost connection.
  abbrev pub process_of : Text → Instance → Call W Text
  process_of id i s =
      if is_empty i.process_id then (fault (no_process id), s) else (done i.process_id, s)

  abbrev pub indexed : Text → Instance → Call W Text
  indexed id i (api, w) = process_of id i (index_unless id i (lookup id api.indexers) api, w)

  abbrev pub then_indexed :
      Text → Instance → Answer Text × (SessionApi × W) → Answer Text × (SessionApi × W)
  then_indexed id i (done a, s) = indexed id i s
  then_indexed id i (fault f, s) = (fault f, s)

  abbrev pub opened_again :
      Text → SessionApi → Option Error × (Instance × W) → Answer Text × (SessionApi × W)
  opened_again id api (some e, (i, w)) = (fault (instance_failed e), (with_instance id i api, w))
  opened_again id api (none, (i, w)) = then_indexed id i (saved id (with_instance id i api, w))

  abbrev pub opened : Text → SessionApi → Instance × W → Answer Text × (SessionApi × W)
  opened id api (i, w) =
      if is_paused i.status
      then opened_again id api (resume (d.env i.host_id) (set_mcp_config (i, w)))
      else indexed id i (with_instance id i api, w)

  -- A session on a host whose process has ended is paused by force.
  abbrev pub checked_process : Instance → Bool × W → Instance × W
  checked_process i (gone, w) = (if gone then force_pause i else i, w)

  abbrev pub reconnected :
      Text → SessionApi → Instance → Option Text × W → Answer Text × (SessionApi × W)
  reconnected id api i (some e, w) = (fault (other_failed e), (with_instance id i api, w))
  reconnected id api i (none, w) =
      let i' : Instance = record i { process_manager = true } in
      opened id api (
        if not (is_empty i.process_id) && not (is_paused i.status)
        then checked_process i' ((d.env i.host_id).wait_exit i.process_id w)
        else (i', w))

  abbrev pub open_found : Text → Option Instance → Call W Text
  open_found id none s = (fault (session_not_found id), s)
  open_found id (some i) (api, w) =
      let i' = touch_last_viewed (d.now w) i in
      if is_empty i.host_id
      then opened id api (i', w)
      else reconnected id api i' (d.connect i.host_id w)

  unfoldable pub open_session : Text → Call W Text
  unfolding set_mcp_config save_instances_locked
  open_session id (api, w) = open_found id (lookup id api.instances) (api, w)

  abbrev pub touch_found : Text → Option Instance → SessionApi → W → SessionApi
  touch_found id none api w = api
  touch_found id (some i) api w = with_instance id (touch_last_viewed (d.now w) i) api

  unfoldable pub touch_session : Text → SessionApi → W → SessionApi
  touch_session id api w = touch_found id (lookup id api.instances) api w

  -- StartSession: a session that cannot start is removed.
  abbrev pub start_failed :
      Text → SessionApi → Error → Instance × W → Answer (Unit {0}) × (SessionApi × W)
  start_failed id api e (i, w) =
      let api' : SessionApi = record (remove_session id api) { dirty = true } in
      (
        fault (instance_failed e),
        (api', save_instances_locked api' (kill (d.env i.host_id) (i, w)).1.1),
      )

  abbrev pub start_result :
      Text → SessionApi → Option Error × (Instance × W) → Answer (Unit {0}) × (SessionApi × W)
  start_result id api (some e, s) = start_failed id api e s
  start_result id api (none, (i, w)) =
      let (a, (api', w')) = saved tt (with_instance id i api, w) in
      (a, (start_indexer id i api', w'))

  abbrev pub start_found : Text → Option Instance → Call W (Unit {0})
  start_found id none s = (fault (session_not_found id), s)
  start_found id (some i) (api, w) =
      if i.started
      then (done tt, (api, w))
      else start_result id api
          (start (d.env i.host_id) true (set_mcp_config (set_status loading i, w)))

  unfoldable pub start_session : Text → Call W (Unit {0})
  unfolding set_mcp_config save_instances_locked
  start_session id (api, w) = start_found id (lookup id api.instances) (api, w)

  -- PauseSession and ResumeSession
  abbrev pub pause_result :
      Text → SessionApi → Option Error × (Instance × W) → Answer (Unit {0}) × (SessionApi × W)
  pause_result id api (some e, (i, w)) = (fault (instance_failed e), (with_instance id i api, w))
  pause_result id api (none, (i, w)) = saved tt (with_instance id i api, w)

  abbrev pub pause_found : Text → Option Instance → Call W (Unit {0})
  pause_found id none s = (fault (session_not_found id), s)
  pause_found id (some i) (api, w) =
      pause_result id (stop_indexer id api) (pause (d.env i.host_id) (i, w))

  unfoldable pub pause_session : Text → Call W (Unit {0})
  unfolding save_instances_locked
  pause_session id (api, w) = pause_found id (lookup id api.instances) (api, w)

  abbrev pub resume_result :
      Text → SessionApi → Option Error × (Instance × W) → Answer (Unit {0}) × (SessionApi × W)
  resume_result id api (some e, (i, w)) = (fault (instance_failed e), (with_instance id i api, w))
  resume_result id api (none, (i, w)) =
      saved tt (with_instance id (record i { auto_paused = false }) api, w)

  abbrev pub resume_found : Text → Option Instance → Call W (Unit {0})
  resume_found id none s = (fault (session_not_found id), s)
  resume_found id (some i) (api, w) =
      resume_result id api (resume (d.env i.host_id) (set_mcp_config (i, w)))

  unfoldable pub resume_session : Text → Call W (Unit {0})
  unfolding set_mcp_config save_instances_locked
  resume_session id (api, w) = resume_found id (lookup id api.instances) (api, w)

  -- KillSession: the session is gone whatever the kill answers.
  abbrev pub kill_found : Text → Option Instance → Call W (Unit {0})
  kill_found id none s = (fault (session_not_found id), s)
  kill_found id (some i) (api, w) =
      let api' : SessionApi = record (remove_session id api) { dirty = true } in
      (done tt, (api', (kill (d.env i.host_id) (i, save_instances_locked api' w)).1.1))

  unfoldable pub kill_session : Text → Call W (Unit {0})
  unfolding save_instances_locked
  kill_session id (api, w) = kill_found id (lookup id api.instances) (api, w)

  abbrev pub index_found : Text → Option Instance → SessionApi → Answer (Unit {0}) × SessionApi
  index_found id none api = (fault (session_not_found id), api)
  index_found id (some i) api =
      if is_paused i.status then (done tt, api) else (done tt, start_indexer id i api)

  unfoldable pub index_session : Text → SessionApi → Answer (Unit {0}) × SessionApi
  index_session id api = index_found id (lookup id api.instances) (stop_indexer id api)
