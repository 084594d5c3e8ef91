-- ===== src/App/Sessions/Api.antt =====
-- app/bindings.go: the open sessions, their indexers, and what the operations on them use.
use claude_squad_ide.Base.{
  ℕ, Bool, [], Option, none, some, Text, is_empty, Assoc, insert, delete, if◌then◌else◌,
}
use claude_squad_ide.Session.Instance.World.{Env, Reply}
use claude_squad_ide.Session.Instance.{Instance, Error}
use claude_squad_ide.Session.Storage.{Store}

pub record SessionApi : Type 0 where
  pub instances : Assoc Instance
  -- The folder of each indexer that runs.
  pub indexers : Assoc Text
  pub dirty : Bool

-- What the sessions use, beside the window: the process managers and git of a host (the empty
-- name is this machine), the storage, the connections, and the MCP server.
pub record Desk (W J : Type 0) : Type 0 where
  pub env : Text → Env W
  pub storage : Store W J
  -- GetClient and GetProcessManager.
  pub connect : Text → W → Option Text × W
  pub has_prompt : Text → W → Bool
  pub now : W → ℕ
  -- `filepath.Abs`, and `~` on a host.
  pub absolute : Text → Text → W → Reply Text
  -- GenerateMCPConfig, if there is a server, and writeMCPGuidance.
  pub mcp_config : Text → Option Text
  pub write_guidance : Text → W → W
  pub default_program : Text
  pub idle_timeout : ℕ

pub record CreateOptions : Type 0 where
  pub title : Text
  pub path : Text
  pub program : Text
  pub branch : Text
  pub auto_yes : Bool
  pub in_place : Bool
  pub host_id : Text

pub data Fault : Type 0 where
  session_not_found no_process : Text → Fault
  instance_failed : Error → Fault
  -- A connection, a path or a host that failed.
  other_failed : Text → Fault

pub data Answer (A : Type 0) : Type 0 where
  done : A → Answer A
  fault : Fault → Answer A

-- An operation of the window, on the sessions and the world.
abbrev pub Call : Type 0 → Type 0 → Type 0
Call W A = SessionApi × W → Answer A × (SessionApi × W)

abbrev pub with_instance : Text → Instance → SessionApi → SessionApi
with_instance id i api = record api { instances = insert id i api.instances }

abbrev pub stop_indexer : Text → SessionApi → SessionApi
stop_indexer id api = record api { indexers = delete id api.indexers }

abbrev pub remove_session : Text → SessionApi → SessionApi
remove_session id api = record api {
  instances = delete id api.instances;
  indexers = delete id api.indexers;
}

abbrev pub get_worktree_path : Instance → Text
get_worktree_path i = elim i.git_worktree [ none ↦ [] | some wt ↦ wt.worktree_path ]

-- A local session is indexed in its worktree, or else in its folder.
abbrev pub start_indexer : Text → Instance → SessionApi → SessionApi
start_indexer id i api =
    let root = get_worktree_path i in
    if is_empty i.host_id
    then record api { indexers = insert id (if is_empty root then i.path else root) api.indexers }
    else api

abbrev pub index_unless : Text → Instance → Option Text → SessionApi → SessionApi
index_unless id i none api = start_indexer id i api
index_unless id i (some root) api = api
