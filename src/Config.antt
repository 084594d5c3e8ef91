-- ===== src/Config.antt =====
-- config/config.go: the configuration, its profiles and its file.
pub mod State
use claude_squad_ide.Base.{
  ℕ, ◌≡◌, refl, Bool, true, false, not, List, [], ◌∷◌, ◌++◌, Option, none, some, Text, codes,
  text_eq, is_empty, keep, find, if◌then◌else◌,
}
use claude_squad_ide.Session.Instance.World.{Reply, ok, err}

pub record Profile : Type 0 where
  pub name : Text
  pub program : Text

pub record Config : Type 0 where
  pub default_program : Text
  pub auto_yes : Bool
  pub daemon_poll_interval : ℕ
  pub branch_prefix : Text
  pub profiles : List Profile
  pub default_work_dir : Text

abbrev pub is_default : Config → Profile → Bool
is_default c p = text_eq p.name c.default_program

abbrev pub program_of : Text → Option Profile → Text
program_of program none = program
program_of program (some p) = p.program

unfoldable pub get_program : Config → Text
get_program c = program_of c.default_program (find (is_default c) c.profiles)

abbrev pub to_list {ℓ} : {A : Type ℓ} → Option A → List A
to_list none = []
to_list (some a) = a ∷ []

unfoldable pub get_profiles : Config → List Profile
get_profiles c =
    if is_empty c.profiles
    then record { name = c.default_program; program = c.default_program } ∷ []
    else to_list (find (is_default c) c.profiles) ++ keep (λ p. not (is_default c p)) c.profiles

-- `claude` is what GetClaudeCommand finds, and `user` the name of the user in lower case, if any.
unfoldable pub default_config : Option Text → Option Text → Config
default_config claude user = record {
  default_program = elim claude [ none ↦ codes "claude" | some program ↦ program ];
  auto_yes = false;
  daemon_poll_interval = 1000;
  branch_prefix = elim user [ none ↦ codes "session/" | some name ↦ name ++ codes "/" ];
  profiles = [];
  default_work_dir = [];
}

-- What is read from a file of the configuration folder.
pub data Contents (D : Type 0) : Type 0 where
  no_file unreadable : Contents D
  bytes : D → Contents D

-- One file of the configuration folder, with a value of type `A` in it as JSON. `config_dir` is
-- what GetConfigDir returns.
pub record Folder (W D A : Type 0) : Type 0 where
  pub config_dir : Reply Text
  pub make_dir : W → Option Text × W
  pub read_file : W → Contents D
  pub write_file : D → W → Option Text × W
  pub marshal : A → Reply D
  pub unmarshal : D → Option A

module _ {W D A : Type 0} (f : Folder W D A) where
  abbrev pub write_value : Text → Reply D → W → Option Text × W
  write_value what (err e) w = (some (codes "failed to marshal " ++ (what ++ (codes ": " ++ e))), w)
  write_value what (ok d) w = f.write_file d w

  abbrev pub made : Text → Reply D → Option Text × W → Option Text × W
  made what d (some e, w) = (some (codes "failed to create config directory: " ++ e), w)
  made what d (none, w) = write_value what d w

  abbrev pub save_in : Text → A → Reply Text → W → Option Text × W
  save_in what a (err e) w = (some (codes "failed to get config directory: " ++ e), w)
  save_in what a (ok dir) w = made what (f.marshal a) (f.make_dir w)

  -- A value that cannot be read is the default one, which is written if there is no file.
  abbrev pub value_or : A → Option A → A
  value_or default none = default
  value_or default (some a) = a

  abbrev pub read_value : Text → A → Contents D → W → A × W
  read_value what default no_file w = (default, (save_in what default f.config_dir w).1)
  read_value what default unreadable w = (default, w)
  read_value what default (bytes d) w = (value_or default (f.unmarshal d), w)

  abbrev pub load_from : Text → A → Reply Text → W → A × W
  load_from what default (err e) w = (default, w)
  load_from what default (ok dir) w = read_value what default (f.read_file w) w

unfoldable pub load_config : {W D : Type 0} → Folder W D Config → Config → W → Config × W
load_config f default w = load_from f (codes "config") default f.config_dir w

unfoldable pub save_config : {W D : Type 0} → Folder W D Config → Config → W → Option Text × W
save_config f c w = save_in f (codes "config") c f.config_dir w
