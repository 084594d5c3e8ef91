-- ===== src/Ssh/Tests.antt =====
-- Concrete hosts, and a manager that uses them.
use claude_squad_ide.Base.{◌≡◌, refl, List, [], ◌∷◌, none, some, codes, lookup, insert, delete}
use claude_squad_ide.Session.Instance.World.{ok, err}
use claude_squad_ide.Ssh.Hosts.{HostConfig, HostStore, bytes, get_by_id, save, update, delete_host}
use claude_squad_ide.Ssh.Hosts.Table.{
  Change, saving, updating, deleting, change_all, table, promised_all, IsReliable,
  change_all-promised,
}
use claude_squad_ide.Ssh.HostManager.{
  HostManager, ManagedClient, Network, new_host_manager, get_client, release_client, fire,
  disconnect,
}
use claude_squad_ide.Ssh.HostManager.Held.{Holders, Run, started, got, after_get}
use claude_squad_ide.Ssh.HostManager.Open.{Holds, Run-Holds}
use claude_squad_ide.Ssh.HostManager.Idle.{last_release_closes}

abbrev at_home : HostConfig
at_home = record {
  id = codes "h";
  name = codes "home";
  host = codes "example.org";
  port = 22;
  user = codes "me";
  auth_method = codes "key";
  key_path = codes "/key";
  last_path = [];
}

abbrev moved : HostConfig
moved = record at_home { port = 2222 }

-- The file is the list itself, and it is the world.
abbrev memory : HostStore (List HostConfig) (List HostConfig)
memory = record {
  read_file = λ w. bytes w;
  write_file = λ t w. (none, t);
  unmarshal = λ t. ok t;
  marshal = λ hs. ok hs;
}

memory-IsReliable : IsReliable memory
memory-IsReliable = record { reads_back = λ t w. refl; marshals = λ hs. (hs, refl, refl) }

abbrev changes : List Change
changes = saving at_home ∷ updating moved ∷ deleting (codes "x") ∷ []

moved_found : get_by_id memory (codes "h") (change_all memory changes []) ≡ ok moved
unfolding get_by_id save update delete_host
moved_found = refl

change_all-promised_example :
    table memory (change_all memory changes []) ≡ promised_all changes (table memory [])
change_all-promised_example = change_all-promised memory memory-IsReliable changes [] [] refl

-- Every connection works.
abbrev network : Network (List HostConfig) (List HostConfig)
network = record {
  store = memory;
  keychain = λ id w. err (codes "no secret");
  connect = λ c secret w. none;
}

abbrev saved : List HostConfig
saved = at_home ∷ []

abbrev held : HostManager
held = (get_client network saved (codes "h") new_host_manager).1

abbrev holders : Holders
holders = after_get (codes "h") (get_client network saved (codes "h") new_host_manager).0 (λ j. 0)

held-Run : Run network held holders
held-Run = got saved (codes "h") new_host_manager (λ j. 0) started

one_holder : holders (codes "h") ≡ 1
unfolding get_client get_by_id lookup
one_holder = refl

Run-Holds_example : Holds (lookup (codes "h") held.clients) (holders (codes "h")) held.closed
Run-Holds_example = Run-Holds network held holders held-Run (codes "h")

last_release_closes_example :
    (mc : ManagedClient) × (lookup (codes "h") held.clients ≡ some mc)
    × (lookup (codes "h") (fire held.next (release_client (codes "h") held)).clients ≡ none)
    × ((fire held.next (release_client (codes "h") held)).closed ≡ mc.client ∷ held.closed)
    × ((w : List HostConfig)
        → ((get_client network w (codes "h") (release_client (codes "h") held)).0 ≡ ok mc.client)
          × (fire held.next (get_client network w (codes "h") (release_client (codes "h") held)).1
              ≡ (get_client network w (codes "h") (release_client (codes "h") held)).1))
last_release_closes_example =
    last_release_closes network held holders (codes "h") held-Run one_holder

-- A connection is lost and a second session gets a new one. The release of the first session counts
-- for the new connection, which is closed under the second.
abbrev second : HostManager
second = (get_client network saved (codes "h") (disconnect (codes "h") held)).1

second_closed : (fire second.next (release_client (codes "h") second)).closed ≡ 1 ∷ []
unfolding get_client get_by_id lookup insert delete disconnect release_client fire
second_closed = refl

abbrev refusing : Network (List HostConfig) (List HostConfig)
refusing = record network { connect = λ c secret w. some (codes "refused") }
