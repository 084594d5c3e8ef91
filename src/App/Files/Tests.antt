-- ===== src/App/Files/Tests.antt =====
-- A disk of two parts, the worktree `/wt` and the rest, each the list of what was done to it.
use claude_squad_ide.Base.{
  ◌≡◌, refl, ap, ◌∙◌, Bool, true, false, List, [], ◌∷◌, none, Text, codes, has_prefix, lookup,
  arith, if◌then◌else◌,
}
use claude_squad_ide.Session.Instance.World.{ok}
use claude_squad_ide.App.Files.{Place, Disk, delete_path}
use claude_squad_ide.App.Files.Paths.{
  resolve, path_of, names_of, Names, Inside, clean_names, resolve-Inside, has_prefix-append,
}
use claude_squad_ide.App.Files.Confined.{Confines, renames, perform, perform-Keeps}
use claude_squad_ide.App.Files.Listing.{ls_output}
use claude_squad_ide.App.Files.Listing.Printed.{ls_output-printed}

abbrev World : Type 0
World = List Text × List Text

abbrev touch : Text → World → World
touch path (inner, outer) =
    if has_prefix path (codes "/wt") then (path ∷ inner, outer) else (inner, path ∷ outer)

abbrev disk : Disk World
disk = record {
  stat = λ p w. ok (record { is_dir = false; size = 3 });
  read_file = λ p w. ok (codes "abc");
  write_file = λ p t w. (none, touch p w);
  make_dir = λ p w. (none, touch p w);
  make_parent = λ p w. (none, w);
  remove_all = λ p w. (none, touch p w);
  rename = λ p q w. (none, touch q (touch p w));
  copy_dir = λ p q w. (([], none), touch q w);
  refresh = λ id w. w;
  connect = λ h w. (none, w);
  release = λ h w. w;
  run = λ h c w. (([], none), w);
  base64 = λ t. t;
}

abbrev outer : World → List Text
outer w = w.1

outer-touch : (p : Text) (w : World) → Inside (codes "/wt") p → outer (touch p w) ≡ outer w
outer-touch p w (ns, v, e) =
    let h : has_prefix p (codes "/wt") ≡ true =
      ap (λ q. has_prefix q (codes "/wt")) e ∙ has_prefix-append (codes "/wt") (path_of ns) in
    ground (arith, h)

disk-Confines : Confines disk (codes "/wt") outer
disk-Confines = record {
  writing = λ p t w i. outer-touch p w i;
  making = λ p w i. outer-touch p w i;
  making_parent = λ p w i. refl;
  removing = λ p w i. outer-touch p w i;
  renaming = λ p q w i j. outer-touch q (touch p w) j ∙ outer-touch p w i;
  copying = λ p q w i j. outer-touch q w j;
  refreshing = λ id w. refl;
}

abbrev place : Place
place = record { worktree_path = codes "/wt"; path = codes "/repo"; host_id = [] }

perform-Keeps_example :
    (perform disk
      ((codes "fix", place) ∷ [])
      (codes "fix")
      (renames (codes "../../etc/passwd") (codes "./a//b"))
      ([], [])).1.1
    ≡ []
unfolding lookup
perform-Keeps_example =
    perform-Keeps disk outer (codes "wt") [] disk-Confines (codes "fix") ([], [])
      ((codes "fix", place) ∷ []) place refl refl (refl, tt)
      (renames (codes "../../etc/passwd") (codes "./a//b")) refl

resolve-Inside_example :
    (resolve (codes "/wt") (codes "../../etc/./passwd") ≡ ok (codes "/wt/etc/passwd"))
    × Names (names_of (codes "../../etc/./passwd"))
unfolding clean_names
resolve-Inside_example = resolve-Inside (codes "wt") [] (codes "../../etc/./passwd") (refl, tt)

-- Deleting the empty path, or the folder above, deletes the worktree itself.
delete_all :
    delete_path disk ((codes "fix", place) ∷ []) (codes "fix") (codes "..") ([], [])
    ≡ (none, (codes "/wt" ∷ [], []))
unfolding delete_path lookup
delete_all = refl

abbrev listing : List (Text × Bool)
listing = (codes "src", true) ∷ (codes ".git", true) ∷ (codes "a b.txt", false) ∷ []

ls_output-printed_example :
    ls_output (codes "src/\n.git/\na b.txt\n") ≡ (codes "src", true) ∷ (codes "a b.txt", false) ∷ []
ls_output-printed_example = ls_output-printed listing (
  (refl, refl, refl, refl, refl),
  ((refl, refl, refl, refl, refl), ((refl, refl, refl, refl, refl), tt)),
)
