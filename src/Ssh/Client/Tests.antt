-- ===== src/Ssh/Client/Tests.antt =====
-- A network where one address does not answer, the remote home cannot be read, and known_hosts has
-- one line; and a goroutine that the program closes the connection under.
use claude_squad_ide.Base.{
  ◌&&◌, ℕ, suc, ◌≤◌, ◌≡◌, refl, ◌⊎◌, true, false, [], ◌∷◌, ◌++◌, none, some, Text, codes, itoa,
  split, text_eq, any, if◌then◌else◌,
}
use claude_squad_ide.Session.Instance.World.{ok, err}
use claude_squad_ide.Ssh.Hosts.{HostConfig}
use claude_squad_ide.Ssh.Client.{Net, Client, SshConfig, password, new_client, connect}
use claude_squad_ide.Ssh.Client.KnownHosts.{
  host_key_algorithms, host_key_algorithms_lem, NoRepeats, listed, is_known_type, offers,
}
use claude_squad_ide.Ssh.Client.Keepalive
use claude_squad_ide.Ssh.Client.Keepalive.{
  Alive, started, begins, waiting, asking, calling, ended, ticks, fails, calls_back, own, closes,
  here, next, rests, moves, Reach, IsTold, Reach-IsTold, close-ends, failed, Own, OwnRun,
}

abbrev host : HostConfig
host = record {
  id = codes "h";
  name = codes "home";
  host = codes "box.local";
  port = 22;
  user = codes "me";
  auth_method = codes "password";
  key_path = [];
  last_path = [];
}

-- The world is the number of connections that are closed.
abbrev net : Net ℕ
net = record {
  home = codes "/home/me";
  read_file =
      λ p w. ok (codes "# keys\nbox.local,10.0.0.2 ssh-rsa AAAA\n[box.local]:22 ssh-rsa BBBB");
  exists = λ p w. true;
  parse_known_hosts = λ p w. none;
  parse_private_key = λ t p. ok 7;
  split_host_port = λ a. some (codes "box.local", codes "22");
  join_host_port = λ a p. a ++ (codes ":" ++ p);
  lookup_host = λ h w. some (codes "fe80::1" ∷ codes "10.0.0.2" ∷ []);
  dial = λ a c w. (err (codes "unused"), w);
  dial_timeout = λ a w. (if text_eq a (codes "fe80::1:22") then err (codes "timeout") else ok 3, w);
  handshake = λ conn a c w. (ok (suc conn), w);
  close_socket = λ conn w. suc w;
  new_session = λ conn w. (err (codes "refused"), w);
  combined_output = λ s cmd w. (([], none), w);
  close_session = λ s w. w;
  close = λ conn w. (none, suc w);
}

abbrev config : SshConfig
config = record {
  user = codes "me";
  insecure = false;
  host_key_algorithms = codes "ssh-rsa" ∷ [];
  auth = password (codes "pw");
}

abbrev idle_client : Client
idle_client = new_client host (codes "pw")

algorithms_found :
    host_key_algorithms
      (codes "# keys\nbox.local,10.0.0.2 ssh-rsa AAAA\n[box.local]:22 ssh-rsa BBBB")
      (codes "box.local")
      22
    ≡ codes "ssh-rsa" ∷ []
unfolding host_key_algorithms itoa
algorithms_found = refl

host_key_algorithms_lem_example :
    NoRepeats (host_key_algorithms (codes "box.local ssh-rsa AAAA") (codes "box.local") 22)
    × ((a : Text)
        → listed a (host_key_algorithms (codes "box.local ssh-rsa AAAA") (codes "box.local") 22) ≡ (
            is_known_type a
            && any
                (offers (codes "box.local") 22 a)
                (split b'\n' (codes "box.local ssh-rsa AAAA"))))
host_key_algorithms_lem_example =
    host_key_algorithms_lem (codes "box.local ssh-rsa AAAA") (codes "box.local") 22

-- The failed Connect has closed the connection, and the client is connected.
connect_unresolved :
    ((connect net 5 idle_client 0).0 ≡ some (codes "resolve remote home: new session: refused"))
    × ((connect net 5 idle_client 0).1.0.connected ≡ true)
    × ((connect net 5 idle_client 0).1.1 ≡ 1)
unfolding connect itoa
connect_unresolved = (refl, refl, refl)

abbrev begun : Alive
begun = record (started 1 true) { place = waiting (some 1) }

-- The program closes the connection while the goroutine waits, and the ticker comes first: the
-- callback is called all the same.
abbrev stale : Alive
stale = failed (codes "closed") (record (Keepalive.close begun) { place = asking })

close_calls_back : Reach (started 1 true) (record stale { place = ended; calls = suc stale.calls })
unfolding failed
close_calls_back =
    next
      (next
        (next (next (next here (own (begins (started 1 true) refl))) (closes begun))
          (own (ticks (Keepalive.close begun) (some 1) (unfold Keepalive.close in refl))))
        (own (fails (record (Keepalive.close begun) { place = asking }) (codes "closed") refl)))
      (own (calls_back stale (unfold Keepalive.close in refl)))

Reach-IsTold_example : IsTold (record stale { place = ended; calls = suc stale.calls })
Reach-IsTold_example = Reach-IsTold {stop = 1} {cb = true} close_calls_back

close-ends_example :
    (0 ≤ 4)
    × ((Keepalive.close (started 1 true)).place ≡ ended
        ⊎ ((u : Alive) × Own (Keepalive.close (started 1 true)) u))
close-ends_example = close-ends (started 1 true) rests
