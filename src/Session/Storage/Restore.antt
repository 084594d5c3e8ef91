-- ===== src/Session/Storage/Restore.antt =====
-- session/storage.go and session/instance.go: what comes back of the instances that were saved.
use claude_squad_ide.Base.{
  ℕ, ◌≡◌, refl, ap, ◌∙◌, Bool, true, false, [], Option, Text, none, some, if_true, if◌then◌else◌,
}
use claude_squad_ide.Session.Instance.World.{Env, Worktree}
use claude_squad_ide.Session.Instance.{Instance, DiffStats, paused, is_paused}
use claude_squad_ide.Session.Storage.{
  to_instance_data, from_instance_data, stored_worktree, worktree_data, diff_data,
}

-- A worktree as it was, but for its base reference, which is not stored, and for its session, which
-- is the title of the instance; and what stands for a worktree that there was not.
abbrev pub worktree_again : Text → Option Worktree → Worktree
worktree_again title (some wt) = record wt { session_name = title; base_ref = [] }
worktree_again title none = record {
  repo_path = [];
  worktree_path = [];
  session_name = [];
  branch_name = [];
  base_commit_sha = [];
  is_existing_branch = false;
  base_ref = [];
}

abbrev pub diff_again : Option DiffStats → DiffStats
diff_again (some d) = d
diff_again none = record { added = 0; removed = 0; content = [] }

-- The instance that is read for a paused one that was stored at the time `now`.
abbrev pub restored : Bool → ℕ → Instance → Instance
restored pm now i = record i {
  updated_at = now;
  auto_yes = false;
  idle_since = 0;
  last_viewed = 0;
  auto_paused = false;
  diff_stats = some (diff_again i.diff_stats);
  mcp_config = [];
  selected_branch = [];
  started = true;
  process_manager = pm;
  process_id = [];
  submodule_failures = [];
  git_worktree = if i.in_place then none else some (worktree_again i.title i.git_worktree);
}

stored-worktree_again :
    (title : Text) (o : Option Worktree)
    → stored_worktree (worktree_data title o) ≡ worktree_again title o
stored-worktree_again title none = refl
stored-worktree_again title (some wt) = refl

data-diff_again : (o : Option DiffStats) → diff_data o ≡ diff_again o
data-diff_again none = refl
data-diff_again (some d) = refl

module _ {W : Type 0} (env : Env W) (pm : Bool) where
  -- A paused instance that is turned into data and back is started, has no process, and is otherwise
  -- as it was but for what is not stored: whether it presses enter by itself, its MCP configuration,
  -- the times of idling and viewing, the reference its worktree is based on, and failures of
  -- submodules. The world is not touched.
  pub from_instance_data-paused :
      (now : ℕ) (i : Instance) (w : W)
      → i.status ≡ paused
      → from_instance_data env pm (to_instance_data now i) w ≡ (none, (restored pm now i, w))
  unfolding from_instance_data to_instance_data
  from_instance_data-paused now i w h =
      if_true (is_paused i.status) _ _ (ap is_paused h)
      ∙ rw (stored-worktree_again i.title i.git_worktree, data-diff_again i.diff_stats) refl
