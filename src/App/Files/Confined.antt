-- ===== src/App/Files/Confined.antt =====
-- app/bindings.go: no change of files that the window asks for leaves the worktree of its session.
use claude_squad_ide.Base.{
  ◌≡◌, refl, sym, ap, ◌∙◌, List, [], ◌∷◌, ◌++◌, Option, none, some, Text, codes, Assoc, lookup,
  is_empty, if_intro, arith,
}
use claude_squad_ide.Session.Instance.World.{Reply, ok, err}
use claude_squad_ide.App.Files.Paths.{Names, Inside, path_of, names_of, resolve, resolve-Inside}
use claude_squad_ide.App.Files.{
  Place, Stat, Disk, worktree_of, resolve_session_path, then_do, on_path, refreshed, is_there,
  write_file, write_at, create_file, create_at, create_directory, create_directory_at, delete_path,
  delete_at, rename_path, rename_at, copy_path, copy_at, copied, copied_dir, copied_file,
}

-- What the window asks for, with paths as it gives them.
pub data Request : Type 0 where
  writes : Text → Text → Request
  creates makes_dir deletes : Text → Request
  renames copies : Text → Text → Request

unfoldable pub perform : {W : Type 0} → Disk W → Assoc Place → Text → Request → W → Option Text × W
unfolding write_file create_file create_directory delete_path rename_path copy_path
perform d sessions id (writes rel t) w = write_file d sessions id rel t w
perform d sessions id (creates rel) w = create_file d sessions id rel w
perform d sessions id (makes_dir rel) w = create_directory d sessions id rel w
perform d sessions id (deletes rel) w = delete_path d sessions id rel w
perform d sessions id (renames old new) w = rename_path d sessions id old new w
perform d sessions id (copies from to) w = copy_path d sessions id from to w

-- `outside` is what the world has outside a worktree. The calls of the system on paths within it
-- change nothing there: no link leads out of it, and it is there, so that making the folder that it
-- is in does nothing.
pub record Confines {W O : Type 0} (d : Disk W) (root : Text) (outside : W → O) : Type 0 where
  pub writing : (p t : Text) (w : W) → Inside root p → outside (d.write_file p t w).1 ≡ outside w
  pub making : (p : Text) (w : W) → Inside root p → outside (d.make_dir p w).1 ≡ outside w
  pub making_parent : (p : Text) (w : W) → Inside root p → outside (d.make_parent p w).1 ≡ outside w
  pub removing : (p : Text) (w : W) → Inside root p → outside (d.remove_all p w).1 ≡ outside w
  pub renaming :
      (p q : Text) (w : W) → Inside root p → Inside root q → outside (d.rename p q w).1 ≡ outside w
  pub copying :
      (p q : Text) (w : W)
      → Inside root p
      → Inside root q
      → outside (d.copy_dir p q w).1 ≡ outside w
  pub refreshing : (id : Text) (w : W) → outside (d.refresh id w) ≡ outside w

module _ {W O : Type 0} (d : Disk W) (outside : W → O) (r : Text) (rs : List Text)
    (k : Confines d (path_of (r ∷ rs)) outside) where
  abbrev root : Text
  root = path_of (r ∷ rs)

  -- The result of an operation leaves what is outside as it was in `w`.
  abbrev Keeps : {A : Type 0} → W → A × W → Type 0
  Keeps w x = outside x.1 ≡ outside w

  then_do-Keeps :
      {A : Type 0} (failed : Text → A) (w : W) (x : Option Text × W) (next : W → A × W)
      → Keeps w x
      → ((w' : W) → outside w' ≡ outside w → Keeps w (next w'))
      → Keeps w (then_do d failed x next)
  then_do-Keeps failed w (some e, w') next h n = h
  then_do-Keeps failed w (none, w') next h n = n w' h

  refreshed-Keeps :
      (id what : Text) (w : W) (x : Option Text × W) → Keeps w x → Keeps w (refreshed d id what x)
  refreshed-Keeps id what w x h =
      then_do-Keeps (λ e. some (what ++ e)) w x (λ w'. (none, d.refresh id w')) h
        (λ w' e. k.refreshing id w' ∙ e)

  copied_file-Keeps :
      (to : Text) (c : Reply Text) (w : W) → Inside root to → Keeps w (copied_file d to c w)
  copied_file-Keeps to (err e) w i = refl
  copied_file-Keeps to (ok t) w i = k.writing to t w i

  copied_dir-Keeps :
      (w : W) (x : (Text × Option Text) × W) → outside x.1 ≡ outside w → Keeps w (copied_dir d x)
  copied_dir-Keeps w ((out, none), w') h = h
  copied_dir-Keeps w ((out, some e), w') h = h

  copied-Keeps :
      (from to : Text) (s : Reply Stat) (w : W)
      → Inside root from
      → Inside root to
      → Keeps w (copied d from to s w)
  copied-Keeps from to (err e) w i j = refl
  copied-Keeps from to (ok s) w i j =
      if_intro (Keeps w) s.is_dir _ _
        (λ _. copied_dir-Keeps w (d.copy_dir from to w) (k.copying from to w i j))
        (λ _. copied_file-Keeps to (d.read_file from w) w j)

  module _ (id : Text) (w : W) where
    create_at-Keeps : (rel p : Text) → Inside root p → Keeps w (create_at d id rel w p)
    create_at-Keeps rel p i =
        then_do-Keeps _ w (d.make_parent p w) _ (k.making_parent p w i) λ w₁ e.
          if_intro (Keeps w) (is_there d (d.stat p w₁)) _ _ (λ _. e)
            (λ _.
              refreshed-Keeps id (codes "create file: ") w (d.write_file p [] w₁)
                (k.writing p [] w₁ i ∙ e))

    create_directory_at-Keeps :
        (rel p : Text) → Inside root p → Keeps w (create_directory_at d rel w p)
    create_directory_at-Keeps rel p i =
        if_intro (Keeps w) (is_there d (d.stat p w)) _ _ (λ _. refl) (λ _. k.making p w i)

    delete_at-Keeps : (p : Text) → Inside root p → Keeps w (delete_at d id w p)
    delete_at-Keeps p i =
        refreshed-Keeps id (codes "delete path: ") w (d.remove_all p w) (k.removing p w i)

    rename_at-Keeps : (p q : Text) → Inside root p → Inside root q → Keeps w (rename_at d id w p q)
    rename_at-Keeps p q i j =
        then_do-Keeps _ w (d.make_parent q w) _ (k.making_parent q w j) λ w₁ e.
          refreshed-Keeps id (codes "rename: ") w (d.rename p q w₁) (k.renaming p q w₁ i j ∙ e)

    copy_at-Keeps : (p q : Text) → Inside root p → Inside root q → Keeps w (copy_at d id w p q)
    copy_at-Keeps p q i j = then_do-Keeps _ w (d.make_parent q w) _ (k.making_parent q w j) λ w₁ e.
        refreshed-Keeps id [] w (copied d p q (d.stat p w₁) w₁)
          (copied-Keeps p q (d.stat p w₁) w₁ i j ∙ e)

    module _ (sessions : Assoc Place) (p : Place) (here : lookup id sessions ≡ some p)
        (at : worktree_of p ≡ root) (proper : Names (r ∷ rs)) where
      -- The path that comes of one of the window.
      abbrev full : Text → Text
      full rel = root ++ path_of (names_of rel)

      full-Inside : (rel : Text) → Inside root (full rel)
      full-Inside rel = (names_of rel, (resolve-Inside r rs rel proper).1, refl)

      resolved : (rel : Text) → resolve_session_path p rel ≡ ok (full rel)
      unfolding resolve_session_path
      resolved rel = ap (λ t. resolve t rel) at ∙ (resolve-Inside r rs rel proper).0

      on_path-Keeps :
          (rel : Text) (next : Text → Option Text × W)
          → ((q : Text) → Inside root q → Keeps w (next q))
          → Keeps w (on_path d sessions id rel w next)
      on_path-Keeps rel next h =
          rw (here, on_path) (rw (resolved rel) (h (full rel) (full-Inside rel)))

      write_at-Keeps :
          (t rel : Text) → p.host_id ≡ [] → Keeps w (write_at d id p t (ok (full rel)) w)
      write_at-Keeps t rel local =
          if_intro (Keeps w) (is_empty p.host_id) _ _
            (λ _.
              refreshed-Keeps id [] w (d.write_file (full rel) t w)
                (k.writing (full rel) t w (full-Inside rel)))
            (λ e. absurd (ground (arith, sym e ∙ ap is_empty local)))

      write_file-Keeps :
          (rel t : Text) → p.host_id ≡ [] → Keeps w (write_file d sessions id rel t w)
      unfolding write_file
      write_file-Keeps rel t local =
          rw (here, write_file) (rw (resolved rel) (write_at-Keeps t rel local))

      -- A session on this machine, whose worktree is a clean path below the root: whatever file the
      -- window asks to write, create, make, delete, rename or copy, under whatever paths, and whichever
      -- step fails, all that is outside the worktree is as it was.
      pub perform-Keeps :
          (q : Request) → p.host_id ≡ [] → outside (perform d sessions id q w).1 ≡ outside w
      unfolding perform create_file create_directory delete_path rename_path copy_path
      perform-Keeps (writes rel t) local = write_file-Keeps rel t local
      perform-Keeps (creates rel) local =
          on_path-Keeps rel (create_at d id rel w) (create_at-Keeps rel)
      perform-Keeps (makes_dir rel) local =
          on_path-Keeps rel (create_directory_at d rel w) (create_directory_at-Keeps rel)
      perform-Keeps (deletes rel) local = on_path-Keeps rel (delete_at d id w) delete_at-Keeps
      perform-Keeps (renames old new) local =
          on_path-Keeps old (λ a. on_path d sessions id new w (rename_at d id w a))
            λ a i. on_path-Keeps new (rename_at d id w a) (λ b j. rename_at-Keeps a b i j)
      perform-Keeps (copies from to) local =
          on_path-Keeps from (λ a. on_path d sessions id to w (copy_at d id w a))
            λ a i. on_path-Keeps to (copy_at d id w a) (λ b j. copy_at-Keeps a b i j)
