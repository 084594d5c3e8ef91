-- ===== src/App/Files.antt =====
-- app/bindings.go: the files of a session's worktree, which the window lists, reads and changes.
--
-- The disk and the hosts are the record Disk over the state of the world. A session's indexer that is
-- told to refresh is the last call of an operation. Sessions do not change during one.
pub mod Paths
pub mod Confined
pub mod Listing
mod Tests
use claude_squad_ide.Base.{
  ℕ, ◌*◌, Bool, true, false, List, [], ◌∷◌, ◌++◌, Option, none, some, Text, codes, itoa, Assoc,
  lookup, is_empty, is_some, ltb, if◌then◌else◌,
}
use claude_squad_ide.Session.Instance.World.{Reply, ok, err}
use claude_squad_ide.Session.Git.Shell.{shell_escape}
use claude_squad_ide.App.Index.Search.{is_binary}
use claude_squad_ide.App.Files.Paths.{resolve}

-- What an operation needs to know of a session: GetWorktreePath, which is empty without a worktree,
-- and the fields Path and HostID.
pub record Place : Type 0 where
  pub worktree_path : Text
  pub path : Text
  pub host_id : Text

pub record Stat : Type 0 where
  pub is_dir : Bool
  pub size : ℕ

-- `none` is the nil error. `make_parent` is os.MkdirAll of the folder that a path is in.
pub record Disk (W : Type 0) : Type 0 where
  pub stat : Text → W → Reply Stat
  pub read_file : Text → W → Reply Text
  pub write_file : Text → Text → W → Option Text × W
  pub make_dir : Text → W → Option Text × W
  pub make_parent : Text → W → Option Text × W
  pub remove_all : Text → W → Option Text × W
  pub rename : Text → Text → W → Option Text × W
  -- `cp -R`, with what it prints.
  pub copy_dir : Text → Text → W → (Text × Option Text) × W
  pub refresh : Text → W → W
  -- A connection to a host, and a command on it.
  pub connect : Text → W → Option Text × W
  pub release : Text → W → W
  pub run : Text → Text → W → (Text × Option Text) × W
  pub base64 : Text → Text

abbrev pub worktree_of : Place → Text
worktree_of p = if is_empty p.worktree_path then p.path else p.worktree_path

unfoldable pub resolve_session_path : Place → Text → Reply Text
unfolding resolve
resolve_session_path p rel = resolve (worktree_of p) rel

abbrev pub not_found : Text → Text
not_found id = codes "session " ++ (id ++ codes " not found")

abbrev pub reason : Text → Option Text → Option Text
reason what none = none
reason what (some e) = some (what ++ e)

module _ {W : Type 0} (d : Disk W) where
  -- A step, after whose error the operation returns.
  abbrev pub then_do {ℓ} : {A : Type ℓ} → (Text → A) → Option Text × W → (W → A × W) → A × W
  then_do failed (some e, w) next = (failed e, w)
  then_do failed (none, w) next = next w

  -- An operation's path, in the session of that identifier.
  abbrev pub on_path : Assoc Place → Text → Text → W → (Text → Option Text × W) → Option Text × W
  on_path sessions id rel w next = elim (lookup id sessions) [
    | none ↦ (some (not_found id), w)
    | some p ↦ elim (resolve_session_path p rel) [ err e ↦ (some e, w) | ok path ↦ next path ]
  ]

  abbrev pub refreshed : Text → Text → Option Text × W → Option Text × W
  refreshed id what r = then_do (λ e. some (what ++ e)) r λ w. (none, d.refresh id w)

  -- A command on the host of a session, while its connection is held.
  abbrev pub on_host {ℓ} : {A : Type ℓ} → (Text → A) → Text → W → (W → A × W) → A × W
  on_host failed host w next =
      then_do (λ e. failed (codes "connect to host: " ++ e)) (d.connect host w)
        λ w'. let (a, w'') = next w' in (a, d.release host w'')

  abbrev pub read_output : (Text × Option Text) × W → Reply Text × W
  read_output ((out, none), w) = (ok out, w)
  read_output ((out, some e), w) = (err (codes "read remote file: " ++ e), w)

  abbrev pub read_remote : Text → Text → W → Reply Text × W
  read_remote host path w =
      on_host err host w λ w'. read_output (d.run host (codes "cat " ++ shell_escape path) w')

  abbrev pub file_limit : ℕ
  file_limit = 5 * 1024 * 1024

  abbrev pub checked : Reply Text → Reply Text
  checked (err e) = err (codes "read file: " ++ e)
  checked (ok t) = if is_binary t then err (codes "binary file not supported") else ok t

  abbrev pub read_sized : Text → Reply Stat → W → Reply Text
  read_sized path (err e) w = err (codes "stat file: " ++ e)
  read_sized path (ok s) w =
      if ltb file_limit s.size
      then err (codes "file too large (" ++ (itoa s.size ++ codes " bytes)"))
      else checked (d.read_file path w)

  abbrev pub read_at : Place → Reply Text → W → Reply Text × W
  read_at p (err e) w = (err e, w)
  read_at p (ok path) w =
      if is_empty p.host_id
      then (read_sized path (d.stat path w) w, w)
      else read_remote p.host_id path w

  unfoldable pub read_file : Assoc Place → Text → Text → W → Reply Text × W
  unfolding resolve_session_path is_binary shell_escape
  read_file sessions id rel w = elim (lookup id sessions) [
    | none ↦ (err (not_found id), w)
    | some p ↦ read_at p (resolve_session_path p rel) w
  ]

  abbrev pub write_remote : Text → Text → Text → W → Option Text × W
  write_remote host path contents w = on_host some host w λ w'.
      let cmd =
        codes "echo "
        ++ (shell_escape (d.base64 contents) ++ (codes " | base64 -d > " ++ shell_escape path)) in
      let (r, w'') = d.run host cmd w' in (reason (codes "write remote file: ") r.1, w'')

  abbrev pub write_at : Text → Place → Text → Reply Text → W → Option Text × W
  write_at id p contents (err e) w = (some e, w)
  write_at id p contents (ok path) w =
      if is_empty p.host_id
      then refreshed id [] (d.write_file path contents w)
      else write_remote p.host_id path contents w

  unfoldable pub write_file : Assoc Place → Text → Text → Text → W → Option Text × W
  unfolding resolve_session_path shell_escape
  write_file sessions id rel contents w = elim (lookup id sessions) [
    | none ↦ (some (not_found id), w)
    | some p ↦ write_at id p contents (resolve_session_path p rel) w
  ]

  abbrev pub is_there : Reply Stat → Bool
  is_there (err e) = false
  is_there (ok s) = true

  -- The operations below are done on this machine, also for a session on a host.
  abbrev pub create_at : Text → Text → W → Text → Option Text × W
  create_at id rel w path =
      then_do (λ e. some (codes "create parent directory: " ++ e)) (d.make_parent path w)
        λ w₁.
          if is_there (d.stat path w₁)
          then (some (codes "file already exists: " ++ rel), w₁)
          else refreshed id (codes "create file: ") (d.write_file path [] w₁)

  unfoldable pub create_file : Assoc Place → Text → Text → W → Option Text × W
  unfolding resolve_session_path
  create_file sessions id rel w = on_path sessions id rel w (create_at id rel w)

  abbrev pub create_directory_at : Text → W → Text → Option Text × W
  create_directory_at rel w path =
      if is_there (d.stat path w)
      then (some (codes "path already exists: " ++ rel), w)
      else (let (e, w') = d.make_dir path w in (reason (codes "create directory: ") e, w'))

  unfoldable pub create_directory : Assoc Place → Text → Text → W → Option Text × W
  unfolding resolve_session_path
  create_directory sessions id rel w = on_path sessions id rel w (create_directory_at rel w)

  abbrev pub delete_at : Text → W → Text → Option Text × W
  delete_at id w path = refreshed id (codes "delete path: ") (d.remove_all path w)

  unfoldable pub delete_path : Assoc Place → Text → Text → W → Option Text × W
  unfolding resolve_session_path
  delete_path sessions id rel w = on_path sessions id rel w (delete_at id w)

  abbrev pub rename_at : Text → W → Text → Text → Option Text × W
  rename_at id w old new =
      then_do (λ e. some (codes "create parent directory: " ++ e)) (d.make_parent new w)
        λ w₁. refreshed id (codes "rename: ") (d.rename old new w₁)

  unfoldable pub rename_path : Assoc Place → Text → Text → Text → W → Option Text × W
  unfolding resolve_session_path
  rename_path sessions id old new w =
      on_path sessions id old w λ from. on_path sessions id new w (rename_at id w from)

  abbrev pub copied_dir : (Text × Option Text) × W → Option Text × W
  copied_dir ((out, none), w) = (none, w)
  copied_dir ((out, some e), w) = (some (codes "copy directory: " ++ (out ++ (codes ": " ++ e))), w)

  abbrev pub copied_file : Text → Reply Text → W → Option Text × W
  copied_file to (err e) w = (some (codes "read source: " ++ e), w)
  copied_file to (ok t) w =
      let (e, w') = d.write_file to t w in (reason (codes "write destination: ") e, w')

  abbrev pub copied : Text → Text → Reply Stat → W → Option Text × W
  copied from to (err e) w = (some (codes "stat source: " ++ e), w)
  copied from to (ok s) w =
      if s.is_dir then copied_dir (d.copy_dir from to w) else copied_file to (d.read_file from w) w

  abbrev pub copy_at : Text → W → Text → Text → Option Text × W
  copy_at id w from to =
      then_do (λ e. some (codes "create parent directory: " ++ e)) (d.make_parent to w)
        λ w₁. refreshed id [] (copied from to (d.stat from w₁) w₁)

  unfoldable pub copy_path : Assoc Place → Text → Text → Text → W → Option Text × W
  unfolding resolve_session_path
  copy_path sessions id from to w =
      on_path sessions id from w λ src. on_path sessions id to w (copy_at id w src)
