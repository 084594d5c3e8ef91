-- ===== src/Session/Tests.antt =====
-- Concrete instances in a world that is the log of what was called.
use claude_squad_ide.Base.{true, false, List, [], ◌∷◌, none, some, Text, codes}
use claude_squad_ide.Session.Instance.World.{Env, Worktree, ok, err}
use claude_squad_ide.Session.Instance.{running, paused, Instance}
use claude_squad_ide.Session.Instance.Life.{pause, resume}
use claude_squad_ide.Session.Instance.Lifecycle.{
  pause_outcome, resume_outcome, PauseOutcome, ResumeOutcome,
}
use claude_squad_ide.Session.Storage.{Store, InstanceData, to_instance_data, save_instances}

abbrev feature : Worktree
feature = record {
  repo_path = codes "/repo";
  worktree_path = codes "/worktrees/feature";
  session_name = codes "feature";
  branch_name = codes "me/feature";
  base_commit_sha = codes "abc";
  is_existing_branch = false;
  base_ref = [];
}

-- Each call is written to the log; spawning and Setup fail, killing works.
abbrev logging : {W : Type 0} → (Text → W → W) → Env W
logging note = record {
  spawn = λ program _ _ _ w. (err (codes "no such program"), note (codes "spawn") w);
  kill = λ id w. (none, note (codes "kill") w);
  wait_exit = λ id w. (false, w);
  get_content = λ id w. [];
  kill_worktree_processes = λ path w. note (codes "orphans") w;
  setup = λ wt w. (err (codes "exists"), (wt, note (codes "setup") w));
  cleanup = λ wt w. (none, note (codes "cleanup") w);
  is_branch_checked_out = λ wt w. (ok false, w);
  current_branch = λ path w. (ok (codes "main"), w);
  fetch_branches = λ path w. note (codes "fetch") w;
  default_branch = λ path w. codes "main";
  new_worktree_from_ref = λ repo ref session w. (ok (feature, codes "me/feature"), w);
  new_worktree = λ repo session w. (ok (feature, codes "me/feature"), w);
  path_exists = λ path w. true;
  look_path = λ name w. true;
  home_dir = λ w. none;
  stat = λ path w. false;
  join = λ parts. [];
  generate_uuid = λ w. (codes "uuid", w);
}

abbrev logged : Env (List Text)
logged = logging (λ call w. call ∷ w)

abbrev working : Instance
working = record {
  title = codes "feature";
  path = codes "/repo";
  branch = codes "me/feature";
  status = running;
  program = codes "claude";
  claude_session_id = [];
  host_id = [];
  mcp_config = [];
  selected_branch = [];
  in_place = false;
  started = true;
  process_manager = true;
  process_id = codes "session-1";
  git_worktree = some feature;
  submodule_failures = [];
  height = 0;
  width = 0;
  created_at = 7;
  updated_at = 8;
  auto_yes = true;
  idle_since = 0;
  last_viewed = 0;
  auto_paused = false;
  diff_stats = none;
}

abbrev stopped : Instance
stopped = record working { status = paused; process_id = [] }

abbrev fresh : Instance
fresh = record working { started = false; process_id = []; git_worktree = none; branch = [] }

abbrev chosen : Instance
chosen = record fresh { git_worktree = some feature; branch = codes "me/feature" }

pause_outcome_example : PauseOutcome logged working (pause logged (working, []))
pause_outcome_example = pause_outcome logged working []

resume_outcome_example : ResumeOutcome logged stopped (resume logged (stopped, []))
resume_outcome_example = resume_outcome logged stopped []

-- What is stored is the list of data itself, and it is the world.
abbrev memory : Store (List InstanceData) (List InstanceData)
memory = record {
  save_instances = λ t w. (none, t);
  get_instances = λ w. w;
  delete_all_instances = λ w. (none, []);
  marshal = λ ds. some ds;
  unmarshal = λ ds. some ds;
}

abbrev stored : InstanceData
stored = to_instance_data 9 stopped

abbrev other : Instance
other = record stopped { title = codes "other" }

abbrev fresh_paused : Instance
fresh_paused = record fresh { status = paused }

abbrev kept : List InstanceData
kept = stored ∷ to_instance_data 9 other ∷ []
