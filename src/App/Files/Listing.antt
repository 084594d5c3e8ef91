-- ===== src/App/Files/Listing.antt =====
-- app/bindings.go: listing the folders of a worktree, on this machine and on hosts.
pub mod Hosts
pub mod Lines
pub mod Printed
use claude_squad_ide.Base.{
  ℕ, ◌≡◌, ◌≢◌, refl, sym, ap, ◌∙◌, Bool, true, false, not, ◌||◌, List, [], ◌∷◌, ◌++◌, Option, none,
  some, Text, codes, Assoc, All, lookup, is_empty, map, keep, any, split, join, trim_space,
  trim_prefix, has_prefix, has_suffix, drop, text_eq, text_eq_iff, Bool-cases, inl, inr, ◌==◌,
  arith, if◌then◌else◌,
}
use claude_squad_ide.Session.Instance.World.{Reply, ok, err}
use claude_squad_ide.Session.Git.Shell.{shell_escape}
use claude_squad_ide.App.Files.Paths.{has_slash}
use claude_squad_ide.App.Files.{Place, Disk, worktree_of, resolve_session_path, not_found, on_host}

pub record DirectoryEntry : Type 0 where
  pub name : Text
  pub path : Text
  pub is_dir : Bool
  pub size : ℕ

-- An entry that os.ReadDir gives. `info` is its size, and `target` what a link leads to, whether that
-- is a folder.
pub record Found : Type 0 where
  pub name : Text
  pub is_dir : Bool
  pub is_link : Bool
  pub info : Option ℕ
  pub target : Option Bool

abbrev pub git_folder : Text
git_folder = codes ".git"

abbrev pub is_listed : Text → List Text → Bool
is_listed n ns = any (λ m. text_eq m n) ns

abbrev pub join_name : Text → Text → Text
join_name dir n = if is_empty dir then n else dir ++ (codes "/" ++ n)

-- The folder relative to the worktree, and what `git check-ignore` is given.
abbrev pub relative : Text → Text → Text
relative worktree path = trim_prefix (trim_prefix path worktree) (codes "/")

abbrev pub ignore_input : Text → List Text → Text
ignore_input rel names = join (map (join_name rel) names) (codes "\n") ++ codes "\n"

-- `filepath.Base` of a line that is not empty and does not end in a slash.
abbrev pub after_slash : Text → Text → Text
after_slash base [] = base
after_slash base (c ∷ s) = after_slash (if c == b'/' then [] else base ++ c ∷ []) s

unfoldable pub ignored_names : Text → List Text
ignored_names out =
    map (after_slash []) (keep (λ l. not (is_empty l)) (split b'\n' (trim_space out)))

abbrev pub entry_path : Text → Text → Text
entry_path dir n = if text_eq dir (codes ".") then n else dir ++ (codes "/" ++ n)

abbrev pub leads_to_dir : Found → Bool
leads_to_dir e = if e.is_link then (elim e.target [ none ↦ e.is_dir | some b ↦ b ]) else e.is_dir

abbrev pub local_entry : Text → Found → List DirectoryEntry
local_entry dir e = elim e.info [
  | none ↦ []
  | some size ↦
      record { name = e.name; path = entry_path dir e.name; is_dir = leads_to_dir e; size = size }
      ∷ []
]

unfoldable pub local_entries : Text → List Text → List Found → List DirectoryEntry
local_entries dir ignored [] = []
local_entries dir ignored (e ∷ es) =
    if text_eq e.name git_folder || is_listed e.name ignored
    then local_entries dir ignored es
    else local_entry dir e ++ local_entries dir ignored es

-- `check_ignore` runs `git check-ignore --stdin` in a folder.
unfoldable pub list_directory_local :
    (Text → Reply (List Found)) → (Text → Text → Text) → Place → Text → Reply (List DirectoryEntry)
unfolding resolve_session_path local_entries ignored_names
list_directory_local read_dir check_ignore p dir = elim (resolve_session_path p dir) [
  | err e ↦ err e
  | ok path ↦ elim (read_dir path) [
    | err e ↦ err (codes "read directory: " ++ e)
    | ok es ↦
        let worktree = worktree_of p in
        let names = keep (λ n. not (text_eq n git_folder)) (map (λ (e : Found). e.name) es) in
        let out = check_ignore worktree (ignore_input (relative worktree path) names) in
        ok (local_entries dir (if is_empty names then [] else ignored_names out) es)
  ]
]

-- A line of `ls -1pA`: the name, and whether it is a folder.
abbrev pub ends_in_slash : Text → Bool
ends_in_slash l = has_suffix l (codes "/")

abbrev pub trim_slash : Text → Text
trim_slash [] = []
trim_slash (c ∷ []) = if c == b'/' then [] else c ∷ []
trim_slash (c ∷ d ∷ s) = c ∷ trim_slash (d ∷ s)

unfoldable pub ls_entries : List Text → List (Text × Bool)
ls_entries [] = []
ls_entries (l ∷ ls) =
    if is_empty l || (text_eq l git_folder || text_eq l (git_folder ++ codes "/"))
    then ls_entries ls
    else if is_empty (trim_slash l)
    then ls_entries ls
    else (trim_slash l, ends_in_slash l) ∷ ls_entries ls

abbrev pub ls_output : Text → List (Text × Bool)
ls_output out = ls_entries (split b'\n' (trim_space out))

unfoldable pub remote_entries : Text → List Text → List (Text × Bool) → List DirectoryEntry
remote_entries dir ignored [] = []
remote_entries dir ignored ((n, b) ∷ es) =
    if is_listed n ignored
    then remote_entries dir ignored es
    else record { name = n; path = entry_path dir n; is_dir = b; size = 0 }
      ∷ remote_entries dir ignored es

module _ {W : Type 0} (d : Disk W) where
  abbrev pub ls_command : Text → Text
  ls_command path = codes "ls -1pA " ++ (shell_escape path ++ codes " 2>/dev/null")

  abbrev pub check_ignored : Text → Text → Text → List (Text × Bool) → W → List Text × W
  check_ignored host worktree rel [] w = ([], w)
  check_ignored host worktree rel (e ∷ es) w =
      let input = ignore_input rel (map (λ (n, b). n) (e ∷ es)) in
      let (r, w') =
        d.run host
          (codes "cd "
            ++ (shell_escape worktree
                ++ (codes " && echo "
                    ++ (shell_escape (d.base64 input)
                        ++ codes " | base64 -d | git check-ignore --stdin 2>/dev/null"))))
          w in
      (ignored_names r.0, w')

  abbrev pub listed_remote :
      Text → Text → Text → Text → (Text × Option Text) × W → Reply (List DirectoryEntry) × W
  listed_remote host worktree rel dir ((out, some e), w) = (err (codes "list directory: " ++ e), w)
  listed_remote host worktree rel dir ((out, none), w) =
      let es = ls_output out in
      let (ignored, w') = check_ignored host worktree rel es w in
      (ok (remote_entries dir ignored es), w')

  unfoldable pub list_directory_remote : Place → Text → W → Reply (List DirectoryEntry) × W
  unfolding resolve_session_path ls_entries remote_entries ignored_names shell_escape
  list_directory_remote p dir w = elim (resolve_session_path p dir) [
    | err e ↦ (err e, w)
    | ok path ↦ on_host d err p.host_id w λ w'.
        listed_remote p.host_id (worktree_of p) (relative (worktree_of p) path) dir
          (d.run p.host_id (ls_command path) w')
  ]

  unfoldable pub list_directory :
      (Text → W → Reply (List Found))
      → (Text → Text → W → Text)
      → Assoc Place
      → Text
      → Text
      → W
      → Reply (List DirectoryEntry) × W
  unfolding list_directory_local list_directory_remote
  list_directory read_dir check_ignore sessions id dir w = elim (lookup id sessions) [
    | none ↦ (err (not_found id), w)
    | some p ↦
        if is_empty p.host_id
        then (list_directory_local (λ path. read_dir path w) (λ t i. check_ignore t i w) p dir, w)
        else list_directory_remote p dir w
  ]
