-- ===== src/Session/Git/DiffFiles/Listed.antt =====
-- session/git/diff_files.go: what the listed files say.
use claude_squad_ide.Base.{
  ℕ, ◌≡◌, refl, ap, ◌∙◌, ◌⊎◌, inl, inr, false, List, [], ◌∷◌, ◌++◌, Option, none, some, Text, codes,
  any, text_eq, text_eq_iff, split, map, is_empty, trim_space, All, All-append, arith, if_intro,
  if_true, ◌==◌, fields,
}
use claude_squad_ide.Session.Git.DiffFiles.{
  DiffFile, Repo, DiffResult, split_once, status_of, or_empty, is_binary, with_new, diff_file,
  diff_line, diff_lines, get_diff_files, in_submodule, files_in, at_commit, third, diff_output,
  with_submodules, get_diff_files_with_submodules, of_tree, submodule_files, files, no_files,
}

-- A file that is added has no old content, and one that is deleted no new content, but for the text
-- that stands for a binary file.
abbrev pub IsConsistent : DiffFile → Type 0
IsConsistent f =
    (f.status ≡ codes "added" → (f.old_content ≡ []) ⊎ (f.old_content ≡ codes "Binary file"))
    × (f.status ≡ codes "deleted" → f.new_content ≡ [])

module _ (repo : Repo) (base : Text) where
  with_new-IsConsistent :
      (f : DiffFile) (o : Option Text)
      → (f.status ≡ codes "added" → f.old_content ≡ [])
      → text_eq f.status (codes "deleted") ≡ false
      → f.new_content ≡ []
      → IsConsistent (with_new f o)
  with_new-IsConsistent f none a d n = (λ e. inl (a e), λ e. n)
  with_new-IsConsistent f (some data_) a d n =
      if_intro IsConsistent (is_binary data_) _ _
        (λ _. (
          λ _. inr refl,
          λ e. absurd (ground (arith, d, (text_eq_iff f.status (codes "deleted")).1 e)),
        ))
        (λ _. (
          λ e. inl (a e),
          λ e. absurd (ground (arith, d, (text_eq_iff f.status (codes "deleted")).1 e)),
        ))

  diff_file-IsConsistent : (s : Text × Text) → IsConsistent (diff_file repo base s)
  unfolding diff_file
  diff_file-IsConsistent (status, path) =
      let no_old = λ (e : status ≡ codes "added").
        if_true (text_eq status (codes "added")) [] (or_empty (repo.show base path))
          ((text_eq_iff status (codes "added")).1 e) in
      if_intro IsConsistent (text_eq status (codes "deleted")) _ _
        (λ _. (λ e. inl (no_old e), λ _. refl))
        (λ d. with_new-IsConsistent _ (repo.read_file path) no_old d refl)

  diff_lines-IsConsistent : (ls : List Text) → All IsConsistent (diff_lines repo base ls)
  unfolding diff_lines
  diff_lines-IsConsistent [] = tt
  diff_lines-IsConsistent (l ∷ ls) =
      All-append IsConsistent (diff_line repo base (split_once b'\t' l)) (diff_lines repo base ls)
        (listed (split_once b'\t' l)) (diff_lines-IsConsistent ls)
    where
      listed : (o : Option (Text × Text)) → All IsConsistent (diff_line repo base o)
      listed none = tt
      listed (some (code, path)) = (diff_file-IsConsistent (status_of code path), tt)

-- What is known of a result: of each file, or nothing if there is an error.
abbrev pub Each : (DiffFile → Type 0) → DiffResult → Type 0
Each P (no_files e) = Unit
Each P (files fs) = All P fs

get_diff_files-IsConsistent :
    (repo : Repo) (base : Text) → Each IsConsistent (get_diff_files repo base)
unfolding get_diff_files
get_diff_files-IsConsistent repo base =
    if_intro (Each IsConsistent) (is_empty base) _ _ (λ _. tt)
      (λ _. of_output (repo.name_status base))
  where
    of_output : (o : Option Text) → Each IsConsistent (diff_output repo base o)
    of_output none = tt
    of_output (some out) =
        if_intro (Each IsConsistent) (is_empty (trim_space out)) _ _ (λ _. tt)
          (λ _. diff_lines-IsConsistent repo base (split b'\n' (trim_space out)))

files_in-IsConsistent :
    (sm : Text) (r : DiffResult) → Each IsConsistent r → All IsConsistent (files_in sm r)
files_in-IsConsistent sm (no_files e) h = tt
files_in-IsConsistent sm (files fs) h = each fs h
  where
    each : (fs : List DiffFile) → All IsConsistent fs → All IsConsistent (map (in_submodule sm) fs)
    each [] a = tt
    each (f ∷ fs) a = (a.0, each fs a.1)

of_tree-IsConsistent :
    (repo : Repo) (sm : Text) (o : Option Text) → All IsConsistent (of_tree repo sm o)
of_tree-IsConsistent repo sm none = tt
of_tree-IsConsistent repo sm (some out) = of_commit (third (fields out))
  where
    of_commit : (o : Option Text) → All IsConsistent (at_commit repo sm o)
    of_commit none = tt
    of_commit (some base) =
        files_in-IsConsistent sm (get_diff_files repo base) (get_diff_files-IsConsistent repo base)

submodule_files-IsConsistent :
    (inner : Text → Repo) (ls_tree : Text → Option Text) (ps : List Text)
    → All IsConsistent (submodule_files inner ls_tree ps)
unfolding submodule_files
submodule_files-IsConsistent inner ls_tree [] = tt
submodule_files-IsConsistent inner ls_tree (p ∷ ps) =
    let sm = trim_space p in
    let ih = submodule_files-IsConsistent inner ls_tree ps in
    if_intro (All IsConsistent) (is_empty sm) _ _ (λ _. ih)
      (λ _.
        All-append IsConsistent (of_tree (inner sm) sm (ls_tree sm)) _
          (of_tree-IsConsistent (inner sm) sm (ls_tree sm)) ih)

-- Whatever git and the file system answer, each file that is listed, of the root or of a submodule,
-- is consistent: an added file has no old content and a deleted one no new content, but for the
-- mark of a binary file.
pub get_diff_files_with_submodules-IsConsistent :
    (repo : Repo) (base : Text) (inner : Text → Repo) (ls_tree : Text → Option Text)
    (foreach : Option Text)
    → Each IsConsistent (get_diff_files_with_submodules repo base inner ls_tree foreach)
unfolding get_diff_files_with_submodules
get_diff_files_with_submodules-IsConsistent repo base inner ls_tree foreach =
    combined foreach (get_diff_files repo base) (get_diff_files-IsConsistent repo base)
  where
    combined :
        (o : Option Text) (r : DiffResult)
        → Each IsConsistent r
        → Each IsConsistent (with_submodules inner ls_tree o r)
    combined o (no_files e) h = tt
    combined none (files fs) h = h
    combined (some out) (files fs) h =
        if_intro (Each IsConsistent) (is_empty (trim_space out)) _ _ (λ _. h)
          (λ _.
            All-append IsConsistent fs _ h
              (submodule_files-IsConsistent inner ls_tree (split b'\n' (trim_space out))))

split_once-append :
    (sep : ℕ) (a b : Text)
    → any (λ c. c == sep) a ≡ false
    → split_once sep (a ++ sep ∷ b) ≡ some (a, b)
split_once-append sep [] b h = ground arith
split_once-append sep (c ∷ a) b h = ground (arith, split_once-append sep a b)

-- For a renamed file, which git lists as a code that starts with R, the old path and the new path,
-- the result has the new path, and its old content is looked for under the new path in the base
-- commit: where the base commit has no such path, the old content of a text file is empty.
pub diff_line-renamed :
    (repo : Repo) (base code old new data_ : Text)
    → any (λ c. c == b'\t') (b'R' ∷ code) ≡ false
    → any (λ c. c == b'\t') old ≡ false
    → repo.show base new ≡ none
    → repo.read_file new ≡ some data_
    → is_binary data_ ≡ false
    → diff_line repo base (split_once b'\t' ((b'R' ∷ code) ++ b'\t' ∷ (old ++ b'\t' ∷ new)))
      ≡ record {
        path = new;
        old_content = [];
        new_content = data_;
        status = codes "modified";
        submodule = [];
      }
        ∷ []
unfolding diff_file status_of
diff_line-renamed repo base code old new data_ c o s r b =
    ap (diff_line repo base) (split_once-append b'\t' (b'R' ∷ code) (old ++ b'\t' ∷ new) c)
    ∙ rw (split_once-append b'\t' old new o, s, r, b) refl
