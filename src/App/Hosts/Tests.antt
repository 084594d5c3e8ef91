-- ===== src/App/Hosts/Tests.antt =====
-- A list of hosts as the file, and a keychain that refuses.
use claude_squad_ide.Base.{◌≡◌, refl, List, [], ◌∷◌, none, some, codes}
use claude_squad_ide.Session.Instance.World.{ok}
use claude_squad_ide.Ssh.Hosts
use claude_squad_ide.Ssh.Hosts.{HostConfig, HostStore, bytes, get_by_id}
use claude_squad_ide.Ssh.Hosts.Table.{table}
use claude_squad_ide.App.Hosts.{CreateHostOptions, HostDesk, create_host, update_host, config_of}
use claude_squad_ide.App.Hosts.Created.{
  IsSteady, keychain_answer, CreateOutcome, create_host-CreateOutcome,
}

abbrev refusing : HostDesk (List HostConfig) (List HostConfig)
refusing = record {
  store = record {
    read_file = λ w. bytes w;
    write_file = λ t w. (none, t);
    unmarshal = λ t. ok t;
    marshal = λ hs. ok hs;
  };
  generate_uuid = λ w. (codes "new", w);
  set_secret = λ id secret w. (some (codes "locked"), w);
  delete_secret = λ id w. w;
}

refusing-IsSteady : IsSteady refusing
refusing-IsSteady = record {
  reliable = record { reads_back = λ t w. refl; marshals = λ hs. (hs, refl, refl) };
  writes = λ t w. refl;
  secret_beside = λ id secret w. refl;
  uuid_beside = λ w. refl;
}

abbrev options : CreateHostOptions
options = record {
  name = codes "home";
  host = codes "example.org";
  port = 22;
  user = codes "me";
  auth_method = codes "password";
  key_path = [];
  secret = codes "x";
}

not_there : table refusing.store [] (codes "new") ≡ none
unfolding get_by_id
not_there = refl

create_host-CreateOutcome_example :
    CreateOutcome refusing refusing-IsSteady
      (table refusing.store [])
      (codes "new")
      options
      (keychain_answer refusing refusing-IsSteady (codes "new") options [])
      (create_host refusing options [])
create_host-CreateOutcome_example =
    create_host-CreateOutcome refusing refusing-IsSteady options [] [] refl not_there

-- An update loses the last path of the host.
abbrev known : HostConfig
known = record (config_of (codes "h") options) { last_path = codes "/work" }

path_lost :
    get_by_id refusing.store
      (codes "h")
      (update_host refusing (record options { secret = [] }) (codes "h") (known ∷ [])).1
    ≡ ok (config_of (codes "h") options)
unfolding update_host get_by_id Hosts.update
path_lost = refl
