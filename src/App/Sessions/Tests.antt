-- ===== src/App/Sessions/Tests.antt =====
-- One open session, and a world that is what is stored.
use claude_squad_ide.Base.{
  ◌≡◌, refl, true, false, List, [], ◌∷◌, none, some, Text, codes, text_eq, lookup, insert, delete,
}
use claude_squad_ide.Session.Instance.World.{Env, Worktree, ok}
use claude_squad_ide.Session.Instance.{running, paused, Instance}
use claude_squad_ide.Session.Instance.Life.{pause, mark_active}
use claude_squad_ide.Session.Storage.{Store, InstanceData}
use claude_squad_ide.App.Sessions.Api.{SessionApi, Desk}
use claude_squad_ide.App.Sessions.{pause_session, save_instances_locked}
use claude_squad_ide.App.Sessions.Outcomes.{Paused, pause_session_outcome}
use claude_squad_ide.App.Sessions.Idle.{
  Conversations, poll_all_statuses, scanned, auto_pause, shows_prompt, polled,
  sync_claude_session_id,
}

abbrev Saved : Type 0
Saved = List InstanceData

abbrev tree : Worktree
tree = record {
  repo_path = codes "/repo";
  worktree_path = codes "/worktrees/a";
  session_name = codes "a";
  branch_name = codes "me/a";
  base_commit_sha = codes "abc";
  is_existing_branch = false;
  base_ref = [];
}

abbrev quiet : Env Saved
quiet = record {
  spawn = λ program args dir vars w. (ok (codes "p2"), w);
  kill = λ id w. (none, w);
  wait_exit = λ id w. (false, w);
  get_content = λ id w. [];
  kill_worktree_processes = λ path w. w;
  setup = λ wt w. (ok [], (wt, w));
  cleanup = λ wt w. (none, w);
  is_branch_checked_out = λ wt w. (ok false, w);
  current_branch = λ path w. (ok (codes "main"), w);
  fetch_branches = λ path w. w;
  default_branch = λ path w. codes "main";
  new_worktree_from_ref = λ repo ref session w. (ok (tree, codes "me/a"), w);
  new_worktree = λ repo session w. (ok (tree, codes "me/a"), w);
  path_exists = λ path w. true;
  look_path = λ name w. true;
  home_dir = λ w. none;
  stat = λ path w. false;
  join = λ parts. [];
  generate_uuid = λ w. (codes "uuid", w);
}

abbrev memory : Store Saved Saved
memory = record {
  save_instances = λ t w. (none, t);
  get_instances = λ w. w;
  delete_all_instances = λ w. (none, []);
  marshal = λ ds. some ds;
  unmarshal = λ ds. some ds;
}

-- It is 1000, and nobody shows a prompt.
abbrev desk : Desk Saved Saved
desk = record {
  env = λ host. quiet;
  storage = memory;
  connect = λ host w. (none, w);
  has_prompt = λ id w. false;
  now = λ w. 1000;
  absolute = λ host path w. ok path;
  mcp_config = λ title. none;
  write_guidance = λ path w. w;
  default_program = codes "claude";
  idle_timeout = 60;
}

abbrev working : Instance
working = record {
  title = codes "a";
  path = codes "/repo";
  branch = codes "me/a";
  status = running;
  program = codes "aider";
  height = 0;
  width = 0;
  created_at = 7;
  updated_at = 8;
  auto_yes = false;
  idle_since = 5;
  last_viewed = 6;
  auto_paused = false;
  diff_stats = none;
  claude_session_id = [];
  host_id = [];
  mcp_config = [];
  selected_branch = [];
  in_place = false;
  started = true;
  process_manager = true;
  process_id = codes "p1";
  git_worktree = some tree;
  submodule_failures = [];
}

abbrev api : SessionApi
api = record { instances = (codes "a", working) ∷ []; indexers = []; dirty = false }

there : lookup (codes "a") api.instances ≡ some working
unfolding lookup
there = refl

pause_session_outcome_example :
    Paused desk (codes "a") working (pause_session desk (codes "a") (api, []))
    × ((j : Text)
        → text_eq (codes "a") j ≡ false
        → lookup j (pause_session desk (codes "a") (api, [])).1.0.instances
          ≡ lookup j api.instances)
pause_session_outcome_example = pause_session_outcome desk (codes "a") working api [] there

abbrev silent : Conversations Saved
silent = record {
  of_process = λ id w. none;
  in_folder = λ dir w. [];
  is_connected = λ host w. false;
}

-- The same session, which works again, is paused by the poll: it goes by the prompt of the last time.
abbrev worked_on : Instance
worked_on = record working { idle_since = 0; status = paused; process_id = []; auto_paused = true }

busy_paused :
    lookup (codes "a") (poll_all_statuses desk silent (api, [])).1.0.instances ≡ some worked_on
unfolding poll_all_statuses auto_pause polled save_instances_locked shows_prompt pause_session
    scanned sync_claude_session_id lookup insert delete pause mark_active
busy_paused = refl
