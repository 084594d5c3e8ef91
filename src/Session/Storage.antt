-- ===== src/Session/Storage.antt =====
-- session/storage.go, and the parts of session/instance.go that turn an instance into stored data and
-- back.
pub mod Edits
pub mod Restore
use claude_squad_ide.Base.{
  ℕ, Bool, true, false, not, List, [], ◌∷◌, Option, none, some, Text, keep, text_eq, any,
  if◌then◌else◌,
}
use claude_squad_ide.Session.Instance.World.{Env, Worktree}
use claude_squad_ide.Session.Instance.{Status, is_paused, Instance, Error, DiffStats}
use claude_squad_ide.Session.Instance.Life.{start}

pub record WorktreeData : Type 0 where
  pub repo_path : Text
  pub worktree_path : Text
  pub session_name : Text
  pub branch_name : Text
  pub base_commit_sha : Text
  pub is_existing_branch : Bool

pub record InstanceData : Type 0 where
  pub title : Text
  pub path : Text
  pub branch : Text
  pub status : Status
  pub height : ℕ
  pub width : ℕ
  pub created_at : ℕ
  pub updated_at : ℕ
  pub auto_yes : Bool
  pub in_place : Bool
  pub program : Text
  pub claude_session_id : Text
  pub host_id : Text
  pub worktree : WorktreeData
  pub diff_stats : DiffStats

-- The zero values of the two structures are what is stored if there is none.
abbrev pub worktree_data : Text → Option Worktree → WorktreeData
worktree_data title none = record {
  repo_path = [];
  worktree_path = [];
  session_name = [];
  branch_name = [];
  base_commit_sha = [];
  is_existing_branch = false;
}
worktree_data title (some wt) = record {
  repo_path = wt.repo_path;
  worktree_path = wt.worktree_path;
  session_name = title;
  branch_name = wt.branch_name;
  base_commit_sha = wt.base_commit_sha;
  is_existing_branch = wt.is_existing_branch;
}

abbrev pub diff_data : Option DiffStats → DiffStats
diff_data none = record { added = 0; removed = 0; content = [] }
diff_data (some d) = d

unfoldable pub to_instance_data : ℕ → Instance → InstanceData
to_instance_data now i = record {
  title = i.title;
  path = i.path;
  branch = i.branch;
  status = i.status;
  height = i.height;
  width = i.width;
  created_at = i.created_at;
  updated_at = now;
  auto_yes = i.auto_yes;
  in_place = i.in_place;
  program = i.program;
  claude_session_id = i.claude_session_id;
  host_id = i.host_id;
  worktree = worktree_data i.title i.git_worktree;
  diff_stats = diff_data i.diff_stats;
}

-- `git.NewGitWorktreeFromStorage`
abbrev pub stored_worktree : WorktreeData → Worktree
stored_worktree d = record {
  repo_path = d.repo_path;
  worktree_path = d.worktree_path;
  session_name = d.session_name;
  branch_name = d.branch_name;
  base_commit_sha = d.base_commit_sha;
  is_existing_branch = d.is_existing_branch;
  base_ref = [];
}

-- The instance that FromInstanceData fills in; `pm` is whether a process manager was given.
unfoldable pub of_data : Bool → InstanceData → Instance
of_data pm d = record {
  title = d.title;
  path = d.path;
  branch = d.branch;
  status = d.status;
  program = d.program;
  height = d.height;
  width = d.width;
  created_at = d.created_at;
  updated_at = d.updated_at;
  auto_yes = false;
  idle_since = 0;
  last_viewed = 0;
  auto_paused = false;
  diff_stats = some d.diff_stats;
  claude_session_id = d.claude_session_id;
  host_id = d.host_id;
  mcp_config = [];
  selected_branch = [];
  in_place = d.in_place;
  started = false;
  process_manager = pm;
  process_id = [];
  git_worktree = if d.in_place then none else some (stored_worktree d.worktree);
  submodule_failures = [];
}

unfoldable pub from_instance_data :
    {W : Type 0} → Env W → Bool → InstanceData → W → Option Error × (Instance × W)
unfolding of_data
from_instance_data env pm d w =
    if is_paused d.status
    then (none, (record (of_data pm d) { started = true }, w))
    else start env false (of_data pm d, w)

-- config.InstanceStorage, over a world that holds what is stored, and encoding/json, whose encoded
-- form is `J`.
pub record Store (W J : Type 0) : Type 0 where
  pub save_instances : J → W → Option Text × W
  pub get_instances : W → J
  pub delete_all_instances : W → Option Text × W
  pub marshal : List InstanceData → Option J
  pub unmarshal : J → Option (List InstanceData)

pub data StorageError : Type 0 where
  unmarshal_failed marshal_failed : StorageError
  instance_not_found : Text → StorageError
  save_failed : Text → StorageError
  not_created : Text → Error → StorageError

-- `allData[i] = data` for the first `i` of that title.
abbrev pub replace_first : InstanceData → List InstanceData → List InstanceData
replace_first d [] = []
replace_first d (e ∷ es) = if text_eq e.title d.title then d ∷ es else e ∷ replace_first d es

unfoldable pub started_data : ℕ → List Instance → List InstanceData
unfolding to_instance_data
started_data now [] = []
started_data now (i ∷ is) =
    let rest = started_data now is in if i.started then to_instance_data now i ∷ rest else rest

module _ {W J : Type 0} (st : Store W J) where
  unfoldable pub load_instances_data : W → Option (List InstanceData)
  load_instances_data w = st.unmarshal (st.get_instances w)

  abbrev saved : Option Text × W → Option StorageError × W
  saved (none, w) = (none, w)
  saved (some e, w) = (some (save_failed e), w)

  abbrev save_text : Option J → W → Option StorageError × W
  save_text none w = (some marshal_failed, w)
  save_text (some t) w = saved (st.save_instances t w)

  unfoldable pub save_instances_data : List InstanceData → W → Option StorageError × W
  save_instances_data ds w = save_text (st.marshal ds) w

  unfoldable pub save_instances : ℕ → List Instance → W → Option StorageError × W
  unfolding save_instances_data started_data
  save_instances now is w = save_instances_data (started_data now is) w

  abbrev pub delete_from : Text → Option (List InstanceData) → W → Option StorageError × W
  delete_from title none w = (some unmarshal_failed, w)
  delete_from title (some ds) w =
      if any (λ d. text_eq d.title title) ds
      then save_instances_data (keep (λ d. not (text_eq d.title title)) ds) w
      else (some (instance_not_found title), w)

  unfoldable pub delete_instance : Text → W → Option StorageError × W
  unfolding load_instances_data save_instances_data
  delete_instance title w = delete_from title (load_instances_data w) w

  abbrev pub update_in : InstanceData → Option (List InstanceData) → W → Option StorageError × W
  update_in d none w = (some unmarshal_failed, w)
  update_in d (some ds) w =
      if any (λ e. text_eq e.title d.title) ds
      then save_instances_data (replace_first d ds) w
      else (some (instance_not_found d.title), w)

  unfoldable pub update_instance : ℕ → Instance → W → Option StorageError × W
  unfolding load_instances_data save_instances_data to_instance_data
  update_instance now i w = update_in (to_instance_data now i) (load_instances_data w) w

  unfoldable pub delete_all_instances : W → Option StorageError × W
  delete_all_instances w = saved (st.delete_all_instances w)

  -- The loop of LoadInstances.
  abbrev pub created :
      Text
      → Option Error × (Instance × W)
      → (Instance → W → (Option StorageError × List Instance) × W)
      → (Option StorageError × List Instance) × W
  created title (some e, (i, w)) k = ((some (not_created title e), []), w)
  created title (none, (i, w)) k = k i w

  abbrev pub add_first :
      Instance
      → (Option StorageError × List Instance) × W
      → (Option StorageError × List Instance) × W
  add_first i ((some e, is), w) = ((some e, []), w)
  add_first i ((none, is), w) = ((none, i ∷ is), w)

  unfoldable pub create_all :
      Env W → Bool → List InstanceData → W → (Option StorageError × List Instance) × W
  unfolding from_instance_data
  create_all env pm [] w = ((none, []), w)
  create_all env pm (d ∷ ds) w =
      created d.title (from_instance_data env pm d w)
        (λ i w'. add_first i (create_all env pm ds w'))

  abbrev load_from :
      Env W → Bool → Option (List InstanceData) → W → (Option StorageError × List Instance) × W
  load_from env pm none w = ((some unmarshal_failed, []), w)
  load_from env pm (some ds) w = create_all env pm ds w

  unfoldable pub load_instances : Env W → Bool → W → (Option StorageError × List Instance) × W
  unfolding load_instances_data create_all
  load_instances env pm w = load_from env pm (load_instances_data w) w
