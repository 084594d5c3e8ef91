-- ===== src/App/Files/Listing/Hosts.antt =====
-- app/bindings.go: listing the folders of a host, and the files that git tracks.
use claude_squad_ide.Base.{
  Bool, true, false, not, ◌||◌, List, [], ◌∷◌, ◌++◌, Option, none, some, Text, codes, Assoc, lookup,
  is_empty, map, keep, split, trim_space, has_prefix, drop, text_eq, if◌then◌else◌,
}
use claude_squad_ide.Session.Instance.World.{Reply, ok, err}
use claude_squad_ide.Session.Git.Shell.{shell_escape}
use claude_squad_ide.App.Files.{Place, Disk, worktree_of, on_host}
use claude_squad_ide.App.Files.Listing.{ls_command, ends_in_slash, trim_slash}

module _ {W : Type 0} (d : Disk W) where
  abbrev pub home_of : Text → (Text × Option Text) × W → Reply Text × W
  home_of dir ((out, some e), w) = (err (codes "resolve home dir: " ++ e), w)
  home_of dir ((out, none), w) =
      let home = trim_space out in
      (ok (if text_eq dir (codes "~") then home else home ++ drop 1 dir), w)

  unfoldable pub resolve_tilde : Text → Text → W → Reply Text × W
  resolve_tilde host dir w =
      if text_eq dir (codes "~") || has_prefix dir (codes "~/")
      then home_of dir (d.run host (codes "echo $HOME") w)
      else (ok dir, w)

  abbrev pub folders_of : (Text × Option Text) × W → Reply (List Text) × W
  folders_of ((out, some e), w) = (err (codes "list directory: " ++ e), w)
  folders_of ((out, none), w) = (
    ok (
        keep (λ n. not (is_empty n))
          (map trim_slash (keep ends_in_slash (split b'\n' (trim_space out))))),
    w,
  )

  abbrev pub then_folders : Text → Reply Text × W → Reply (List Text) × W
  then_folders host (err e, w) = (err e, w)
  then_folders host (ok dir, w) = folders_of (d.run host (ls_command d dir) w)

  unfoldable pub list_remote_dir : Text → Text → W → Reply (List Text) × W
  unfolding resolve_tilde shell_escape
  list_remote_dir host dir w =
      on_host d err host w λ w'. then_folders host (resolve_tilde host dir w')

  abbrev pub is_none_error : Option Text → Bool
  is_none_error none = true
  is_none_error (some e) = false

  abbrev pub then_check : Text → Reply Text × W → Reply Bool × W
  then_check host (err e, w) = (err e, w)
  then_check host (ok dir, w) =
      let (r, w') =
        d.run host (codes "cd " ++ (shell_escape dir ++ codes " && git rev-parse --show-toplevel"))
          w in
      (ok (is_none_error r.1), w')

  unfoldable pub check_remote_git_repo : Text → Text → W → Reply Bool × W
  unfolding resolve_tilde shell_escape
  check_remote_git_repo host dir w =
      on_host d err host w λ w'. then_check host (resolve_tilde host dir w')

  abbrev pub lines_or_none : Text → List Text
  lines_or_none raw = if is_empty raw then [] else split b'\n' raw

  abbrev pub tracked_of : (Text × Option Text) × W → Reply (List Text) × W
  tracked_of ((out, some e), w) = (err (codes "remote git ls-files: " ++ e), w)
  tracked_of ((out, none), w) = (ok (lines_or_none (trim_space out)), w)

  unfoldable pub list_files_remote : Place → W → Reply (List Text) × W
  unfolding shell_escape
  list_files_remote p w = on_host d err p.host_id w λ w'.
      tracked_of
        (d.run p.host_id (codes "cd " ++ (shell_escape p.path ++ codes " && git ls-files")) w')

  abbrev pub list_files_in :
      (Text → W → Reply (List Text)) → Text → Option Place → W → Reply (List Text) × W
  list_files_in ls id none w = (err (codes "session not found: " ++ id), w)
  list_files_in ls id (some p) w =
      if is_empty p.host_id then (ls (worktree_of p) w, w) else list_files_remote p w

  -- The cache of a session's indexer is used unless it is empty.
  abbrev pub or_cached : Option (List Text) → Reply (List Text) × W → W → Reply (List Text) × W
  or_cached none r w = r
  or_cached (some []) r w = r
  or_cached (some (f ∷ fs)) r w = (ok (f ∷ fs), w)

  unfoldable pub list_files :
      (Text → W → Reply (List Text))
      → Assoc (List Text)
      → Assoc Place
      → Text
      → W
      → Reply (List Text) × W
  unfolding list_files_remote
  list_files ls indexers sessions id w =
      or_cached (lookup id indexers) (list_files_in ls id (lookup id sessions) w) w
