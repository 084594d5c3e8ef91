-- ===== src/Config/State.antt =====
-- config/state.go: the stored state, with the data of the instances in it.

use claude_squad_ide.Base.{arith, ℕ, ◌≡◌, refl, ap, ◌∙◌, Option, none, some, Text, codes}
use claude_squad_ide.Session.Instance.World.{Reply, ok, err}
use claude_squad_ide.Config.{
  Folder, bytes, save_in, load_from, made, write_value, read_value, value_or,
}

-- `J` is the type of raw JSON.
pub record State (J : Type 0) : Type 0 where
  pub help_screens_seen : ℕ
  pub instances_data : J

module _ {W D J : Type 0} (f : Folder W D (State J)) (empty_list : J) where
  abbrev pub default_state : State J
  default_state = record { help_screens_seen = 0; instances_data = empty_list }

  unfoldable pub load_state : W → State J × W
  load_state w = load_from f (codes "state") default_state f.config_dir w

  unfoldable pub save_state : State J → W → Option Text × W
  save_state s w = save_in f (codes "state") s f.config_dir w

  -- The methods change the state in memory also if it cannot be written.
  abbrev pub store : State J → W → Option Text × (State J × W)
  store s w = let (e, w') = save_state s w in (e, (s, w'))

  unfoldable pub save_instances : J → State J → W → Option Text × (State J × W)
  unfolding save_state
  save_instances j s w = store (record s { instances_data = j }) w

  unfoldable pub get_instances : State J → J
  get_instances s = s.instances_data

  unfoldable pub delete_all_instances : State J → W → Option Text × (State J × W)
  unfolding save_state
  delete_all_instances s w = store (record s { instances_data = empty_list }) w

  unfoldable pub set_help_screens_seen : ℕ → State J → W → Option Text × (State J × W)
  unfolding save_state
  set_help_screens_seen seen s w = store (record s { help_screens_seen = seen }) w

-- Files and JSON that are written can be read back.
pub record IsFaithful {W D A : Type 0} (f : Folder W D A) : Type 0 where
  pub reads_back :
      (d : D) (w : W) → (f.write_file d w).0 ≡ none → f.read_file (f.write_file d w).1 ≡ bytes d
  pub decodes : (a : A) (d : D) → f.marshal a ≡ ok d → f.unmarshal d ≡ some a

module _ {W D A : Type 0} (f : Folder W D A) (k : IsFaithful f) (what : Text) (default a : A)
    (dir : Text) where
  load-write_value :
      (r : Reply D) (w : W)
      → f.marshal a ≡ r
      → (write_value f what r w).0 ≡ none
      → load_from f what default (ok dir) (write_value f what r w).1
        ≡ (a, (write_value f what r w).1)
  load-write_value (err e) w m n = absurd (ground (arith, n))
  load-write_value (ok d) w m n =
      let w' = (f.write_file d w).1 in
      ap (λ c. read_value f what default c w') (k.reads_back d w n)
      ∙ ap (λ o. (value_or f default o, w')) (k.decodes a d m)

  load-made :
      (r : Option Text × W)
      → (made f what (f.marshal a) r).0 ≡ none
      → load_from f what default (ok dir) (made f what (f.marshal a) r).1
        ≡ (a, (made f what (f.marshal a) r).1)
  load-made (some e, w) n = absurd (ground (arith, n))
  load-made (none, w) n = load-write_value (f.marshal a) w refl n

  -- If the file and its JSON can be read back, a value that is saved without an error is what is then
  -- loaded, whatever the default, and loading writes nothing.
  pub load-save :
      (w : W)
      → (save_in f what a (ok dir) w).0 ≡ none
      → load_from f what default (ok dir) (save_in f what a (ok dir) w).1
        ≡ (a, (save_in f what a (ok dir) w).1)
  load-save w n = load-made (f.make_dir w) n
