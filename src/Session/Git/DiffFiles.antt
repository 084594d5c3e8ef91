-- ===== src/Session/Git/DiffFiles.antt =====
-- session/git/diff_files.go: the changed files of a worktree and of its submodules.
--
-- What git and the file system answer, after `git add -N .`, is a record `Repo` of functions, for one
-- repository.
pub mod Listed
use claude_squad_ide.Base.{
  ℕ, ◌≡◌, refl, Bool, true, false, not, ◌&&◌, ◌||◌, List, [], ◌∷◌, ◌++◌, Option, none, some, Text,
  codes, take, any, split, map, text_eq, has_prefix, trim_space, is_empty, fields, push_head, ◌==◌,
  if◌then◌else◌,
}

pub record DiffFile : Type 0 where
  pub path : Text
  pub old_content : Text
  pub new_content : Text
  pub status : Text
  pub submodule : Text

pub record Repo : Type 0 where
  -- `git diff --name-status <commit>`, `git show <commit>:<path>`, and `os.ReadFile` of a path in the
  -- worktree.
  pub name_status : Text → Option Text
  pub show : Text → Text → Option Text
  pub read_file : Text → Option Text

-- `strings.SplitN(s, sep, 2)`, if it has two parts.
abbrev pub push_left : ℕ → Option (Text × Text) → Option (Text × Text)
push_left c none = none
push_left c (some (a, b)) = some (c ∷ a, b)

abbrev pub split_once : ℕ → Text → Option (Text × Text)
split_once sep [] = none
split_once sep (c ∷ s) =
    let rest = split_once sep s in if c == sep then some ([], s) else push_left c rest

abbrev pub second_or : Text → Option (Text × Text) → Text
second_or s none = s
second_or s (some (a, b)) = b

-- The status and the path that the two parts of a line stand for.
unfoldable pub status_of : Text → Text → Text × Text
status_of code path =
    if text_eq code (codes "A")
    then (codes "added", path)
    else if text_eq code (codes "D")
    then (codes "deleted", path)
    else if has_prefix code (codes "R")
    then (codes "modified", second_or path (split_once b'\t' path))
    else (codes "modified", path)

abbrev pub or_empty : Option Text → Text
or_empty none = []
or_empty (some t) = t

-- A null byte in the first 512.
abbrev pub is_binary : Text → Bool
is_binary data_ = any (λ c. c == 0) (take 512 data_)

abbrev pub with_new : DiffFile → Option Text → DiffFile
with_new f none = f
with_new f (some data_) =
    if is_binary data_
    then record f { old_content = codes "Binary file"; new_content = codes "Binary file" }
    else record f { new_content = data_ }

unfoldable pub diff_file : Repo → Text → Text × Text → DiffFile
diff_file repo base (status, path) =
    let f : DiffFile = record {
      path = path;
      status = status;
      submodule = [];
      new_content = [];
      old_content = if text_eq status (codes "added") then [] else or_empty (repo.show base path);
    } in
    if text_eq status (codes "deleted") then f else with_new f (repo.read_file path)

abbrev pub diff_line : Repo → Text → Option (Text × Text) → List DiffFile
diff_line repo base none = []
diff_line repo base (some (code, path)) = diff_file repo base (status_of code path) ∷ []

unfoldable pub diff_lines : Repo → Text → List Text → List DiffFile
unfolding diff_file status_of
diff_lines repo base [] = []
diff_lines repo base (l ∷ ls) = diff_line repo base (split_once b'\t' l) ++ diff_lines repo base ls

pub data DiffError : Type 0 where
  no_base_commit diff_failed : DiffError

pub data DiffResult : Type 0 where
  files : List DiffFile → DiffResult
  no_files : DiffError → DiffResult

abbrev pub diff_output : Repo → Text → Option Text → DiffResult
diff_output repo base none = no_files diff_failed
diff_output repo base (some output) =
    if is_empty (trim_space output)
    then files []
    else files (diff_lines repo base (split b'\n' (trim_space output)))

unfoldable pub get_diff_files : Repo → Text → DiffResult
unfolding diff_lines
get_diff_files repo base =
    if is_empty base then no_files no_base_commit else diff_output repo base (repo.name_status base)

-- `lsParts[2]` of `git ls-tree <commit> <path>`.
abbrev pub third : List Text → Option Text
third (a ∷ b ∷ c ∷ rest) = some c
third _ = none

abbrev pub in_submodule : Text → DiffFile → DiffFile
in_submodule sm f = record f { path = sm ++ b'/' ∷ f.path; submodule = sm }

abbrev pub files_in : Text → DiffResult → List DiffFile
files_in sm (no_files e) = []
files_in sm (files fs) = map (in_submodule sm) fs

abbrev pub at_commit : Repo → Text → Option Text → List DiffFile
at_commit repo sm none = []
at_commit repo sm (some base) = files_in sm (get_diff_files repo base)

abbrev pub of_tree : Repo → Text → Option Text → List DiffFile
of_tree repo sm none = []
of_tree repo sm (some out) = at_commit repo sm (third (fields out))

-- The loop over the paths of the submodules; `ls_tree` is `git ls-tree` of the root repository, and
-- `inner` the repository of a submodule.
unfoldable pub submodule_files : (Text → Repo) → (Text → Option Text) → List Text → List DiffFile
unfolding get_diff_files
submodule_files inner ls_tree [] = []
submodule_files inner ls_tree (p ∷ ps) =
    let sm = trim_space p in
    let rest = submodule_files inner ls_tree ps in
    if is_empty sm then rest else of_tree (inner sm) sm (ls_tree sm) ++ rest

abbrev pub with_submodules :
    (Text → Repo) → (Text → Option Text) → Option Text → DiffResult → DiffResult
with_submodules inner ls_tree foreach (no_files e) = no_files e
with_submodules inner ls_tree none (files fs) = files fs
with_submodules inner ls_tree (some out) (files fs) =
    if is_empty (trim_space out)
    then files fs
    else files (fs ++ submodule_files inner ls_tree (split b'\n' (trim_space out)))

unfoldable pub get_diff_files_with_submodules :
    Repo → Text → (Text → Repo) → (Text → Option Text) → Option Text → DiffResult
unfolding get_diff_files submodule_files
get_diff_files_with_submodules repo base inner ls_tree foreach =
    with_submodules inner ls_tree foreach (get_diff_files repo base)
