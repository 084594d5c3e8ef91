-- ===== src/App/Sessions/Idle.antt =====
-- app/bindings.go: polling the sessions, and the pause of those that are idle.
pub mod Spared
use claude_squad_ide.Base.{
  ℕ, ◌-◌, Bool, true, false, not, ◌&&◌, ◌||◌, List, [], ◌∷◌, ◌++◌, Option, none, some, Text, codes,
  text_eq, is_empty, has_suffix, fields, map, any, keep, lookup, insert, ltb, ◌==◌, if◌then◌else◌,
}
use claude_squad_ide.Session.Instance.World.{Env}
use claude_squad_ide.Session.Instance.{
  Status, running, ready, loading, paused, is_paused, Instance, DiffStats,
}
use claude_squad_ide.Session.Instance.Life.{mark_idle, mark_active, work_dir}
use claude_squad_ide.App.Sessions.Api.{SessionApi, Desk, Answer, with_instance}
use claude_squad_ide.App.Sessions.{save_instances_locked, pause_session}

pub record SessionStatus : Type 0 where
  pub id : Text
  pub status : Text
  pub branch : Text
  pub added : ℕ
  pub removed : ℕ
  pub has_prompt : Bool
  pub ssh_connected : Option Bool
  pub auto_paused : Bool

abbrev pub status_string : Status → Text
status_string running = codes "running"
status_string ready = codes "ready"
status_string loading = codes "loading"
status_string paused = codes "paused"

abbrev pub counts : Option DiffStats → ℕ × ℕ
counts none = (0, 0)
counts (some s) = (s.added, s.removed)

-- What SyncClaudeSessionID reads: the file of the process, if it names a conversation, and the
-- conversations of a folder with their times.
pub record Conversations (W : Type 0) : Type 0 where
  pub of_process : Text → W → Option Text
  pub in_folder : Text → W → List (Text × ℕ)
  pub is_connected : Text → W → Bool

-- The first of the latest; the pair is that of the files so far.
unfoldable pub newest : Text × ℕ → List (Text × ℕ) → Text
newest (id, time) [] = id
newest (id, time) ((name, t) ∷ files) =
    let rest = newest (id, time) files in
    let later = newest (name, t) files in if ltb time t then later else rest

abbrev pub follow : Text → Instance → Bool × Instance
follow id i =
    if is_empty id || text_eq id i.claude_session_id
    then (false, i)
    else (true, record i { claude_session_id = id })

abbrev pub runs_claude : List Text → Bool
runs_claude [] = false
runs_claude (name ∷ args) = has_suffix name (codes "claude")

unfoldable pub sync_claude_session_id :
    {W : Type 0} → Env W → Conversations W → Instance → W → Bool × Instance
unfolding newest
sync_claude_session_id env c i w =
    let ready =
      i.started
      && not (is_paused i.status)
      && i.process_manager
      && not (is_empty i.process_id)
      && runs_claude (fields i.program)
      && is_empty i.host_id in
    if ready
    then (elim (env.home_dir w) [
      | none ↦ (false, i)
      | some home ↦ (elim (c.of_process i.process_id w) [
        | some id ↦ follow id i
        | none ↦
            if is_empty (work_dir i)
            then (false, i)
            else follow (newest ([], 0) (c.in_folder (work_dir i) w)) i
      ])
    ])
    else (false, i)

module _ {W J : Type 0} (d : Desk W J) where
  unfoldable pub shows_prompt : Instance → W → Bool
  shows_prompt i w =
      i.started && i.process_manager && not (is_empty i.process_id) && d.has_prompt i.process_id w

  abbrev pub timed_out : ℕ → Instance → Bool
  timed_out now i =
      not (i.idle_since == 0)
      && ltb d.idle_timeout (now - i.idle_since)
      && ltb d.idle_timeout (now - i.last_viewed)

  abbrev pub marked : Bool → ℕ → Instance → Instance
  marked prompt now i =
      if is_paused i.status then i else if prompt then mark_idle now i else mark_active i

  -- The loop over the sessions to pause, whose errors are logged only.
  abbrev pub flagged : Text → Option Instance → SessionApi → SessionApi
  flagged id none api = api
  flagged id (some i) api = with_instance id (record i { auto_paused = true }) api

  unfoldable pub auto_pause : List Text → SessionApi × W → SessionApi × W
  unfolding pause_session
  auto_pause [] s = s
  auto_pause (id ∷ ids) (api, w) =
      auto_pause ids (pause_session d id (flagged id (lookup id api.instances) api, w)).1

  -- checkIdleSessions: the state of a session is brought up to date, and then looked at.
  unfoldable pub scanned : W → Instance → Instance
  unfolding shows_prompt
  scanned w i = marked (shows_prompt i w) (d.now w) i

  abbrev pub is_due : ℕ → Instance → Bool
  is_due now i = not (is_paused i.status) && timed_out now i

  abbrev pub scan_all : W → SessionApi → SessionApi
  scan_all w api = record api { instances = map (λ (id, i). (id, scanned w i)) api.instances }

  abbrev pub due_titles : ℕ → List (Text × Instance) → List Text
  due_titles now is = map (λ (id, i). i.title) (keep (λ (id, i). is_due now i) is)

  unfoldable pub check_idle_sessions : SessionApi × W → SessionApi × W
  unfolding auto_pause scanned
  check_idle_sessions (api, w) =
      let api' = scan_all w api in auto_pause (due_titles (d.now w) api'.instances) (api', w)

  -- PollAllStatuses: who is due is decided on the state of the last time.
  abbrev pub is_due_before : ℕ → Instance → Bool
  is_due_before now i = ltb 0 d.idle_timeout && timed_out now i && not (is_paused i.status)

  unfoldable pub polled : Conversations W → W → Instance → Bool × Instance
  unfolding scanned sync_claude_session_id
  polled c w i = sync_claude_session_id (d.env i.host_id) c (scanned w i) w

  abbrev pub status_of : Conversations W → W → Instance → SessionStatus
  status_of c w i = record {
    id = i.title;
    status = status_string i.status;
    branch = i.branch;
    added = (counts i.diff_stats).0;
    removed = (counts i.diff_stats).1;
    has_prompt = shows_prompt i w;
    ssh_connected = if is_empty i.host_id then none else some (c.is_connected i.host_id w);
    auto_paused = i.auto_paused;
  }

  abbrev pub reported : List Text → SessionStatus → SessionStatus
  reported ids s =
      if any (λ id. text_eq id s.id) ids
      then record s { status = codes "paused"; auto_paused = true }
      else s

  unfoldable pub poll_all_statuses :
      Conversations W → SessionApi × W → List SessionStatus × (SessionApi × W)
  unfolding auto_pause polled save_instances_locked shows_prompt
  poll_all_statuses c (api, w) =
      let due =
        map (λ (id, i). i.title) (keep (λ (id, i). is_due_before (d.now w) i) api.instances) in
      let api' : SessionApi = record api {
        instances = map (λ (id, i). (id, (polled c w i).1)) api.instances;
      } in
      let (api'', w') = auto_pause due (api', w) in
      let statuses = map (λ (id, i). reported due (status_of c w i)) api.instances in
      let dirty : SessionApi = record api'' { dirty = true } in
      if any (λ (id, i). (polled c w i).0) api.instances
      then (statuses, (dirty, save_instances_locked d dirty w'))
      else (statuses, (api'', w'))
