-- ===== src/Ssh/Client.antt =====
-- ssh/client.go: the connection to a host.
--
-- Sockets, the handshake, name resolution, private keys and files are the record Net; connections are
-- numbers.
pub mod KnownHosts
pub mod Keepalive
pub mod Dialled
mod Tests
use claude_squad_ide.Base.{
  ℕ, suc, Bool, true, false, List, [], ◌∷◌, ◌++◌, Option, none, some, Text, codes, itoa, drop,
  has_prefix, trim_space, text_eq, is_empty, if◌then◌else◌,
}
use claude_squad_ide.Session.Instance.World.{Reply, ok, err}
use claude_squad_ide.Ssh.Hosts.{HostConfig}
use claude_squad_ide.Ssh.Client.KnownHosts.{host_key_algorithms}

pub data AuthMethod : Type 0 where
  -- The password, also as the answer to every question.
  password : Text → AuthMethod
  public_key : ℕ → AuthMethod

-- Whether keys of hosts are compared with those of the file known_hosts.
pub record SshConfig : Type 0 where
  pub user : Text
  pub insecure : Bool
  pub host_key_algorithms : List Text
  pub auth : AuthMethod

pub record Net (W : Type 0) : Type 0 where
  pub home : Text
  pub read_file : Text → W → Reply Text
  -- `os.Stat` and `knownhosts.New`, which fails with an error.
  pub exists : Text → W → Bool
  pub parse_known_hosts : Text → W → Option Text
  -- A key without and with a passphrase; keys are numbers.
  pub parse_private_key : Text → Option Text → Reply ℕ
  -- `net.SplitHostPort`, `net.JoinHostPort` and `net.LookupHost`.
  pub split_host_port : Text → Option (Text × Text)
  pub join_host_port : Text → Text → Text
  pub lookup_host : Text → W → Option (List Text)
  -- `ssh.Dial`, and its two parts.
  pub dial : Text → SshConfig → W → Reply ℕ × W
  pub dial_timeout : Text → W → Reply ℕ × W
  pub handshake : ℕ → Text → SshConfig → W → Reply ℕ × W
  pub close_socket : ℕ → W → W
  -- What the command writes, and its error.
  pub new_session : ℕ → W → Reply ℕ × W
  pub combined_output : ℕ → Text → W → (Text × Option Text) × W
  pub close_session : ℕ → W → W
  pub close : ℕ → W → Option Text × W

-- `none` stands for a nil pointer, error or channel.
pub record Client : Type 0 where
  pub client : Option ℕ
  pub config : HostConfig
  pub secret : Text
  pub connected : Bool
  pub last_err : Option Text
  pub home_dir : Text
  pub stop_keepalive : Option ℕ

abbrev pub new_client : HostConfig → Text → Client
new_client config secret = record {
  client = none;
  config = config;
  secret = secret;
  connected = false;
  last_err = none;
  home_dir = [];
  stop_keepalive = none;
}

unfoldable pub address : HostConfig → Text
address c = c.host ++ (codes ":" ++ itoa c.port)

abbrev pub failed {ℓ} : {A : Type ℓ} → Text → Reply A → Reply A
failed what (ok a) = ok a
failed what (err e) = err (what ++ e)

-- `one` is a round of the loop over the addresses, and `last_err` the error of the round before.
unfoldable pub dial_each {ℓ} :
    {W : Type ℓ} → (Text → W → Reply ℕ × W) → Text → List Text → W → Reply ℕ × W
dial_each one last_err [] w = (err last_err, w)
dial_each one last_err (a ∷ addrs) w =
    let (r, w') = one a w in elim r [ ok c ↦ (ok c, w') | err e ↦ dial_each one e addrs w' ]

module _ {W : Type 0} (n : Net W) where
  abbrev pub known_hosts_path : Text
  known_hosts_path = n.home ++ codes "/.ssh/known_hosts"

  -- Whether the check of host keys is off, and the algorithms to prefer.
  abbrev pub host_keys : HostConfig → Reply Text → Bool → Option Text → Bool × List Text
  host_keys c contents false e = (true, [])
  host_keys c contents true (some e) = (true, [])
  host_keys c (err e) true none = (false, [])
  host_keys c (ok t) true none = (false, host_key_algorithms t c.host c.port)

  abbrev pub expand_home : Text → Text
  expand_home path =
      if has_prefix path (codes "~/") then n.home ++ (codes "/" ++ drop 2 path) else path

  abbrev pub parsed_key : Text → Option Text → Reply Text → Reply AuthMethod
  parsed_key what passphrase (err e) = err (codes "read key file: " ++ e)
  parsed_key what passphrase (ok t) = elim (n.parse_private_key t passphrase) [
    | err e ↦ err (what ++ e)
    | ok k ↦ ok (public_key k)
  ]

  abbrev pub auth_method : HostConfig → Text → W → Reply AuthMethod
  auth_method c secret w =
      let file = n.read_file (expand_home c.key_path) w in
      if text_eq c.auth_method (codes "password")
      then ok (password secret)
      else if text_eq c.auth_method (codes "key")
      then parsed_key (codes "parse private key: ") none file
      else if text_eq c.auth_method (codes "key+passphrase")
      then parsed_key (codes "parse private key with passphrase: ") (some secret) file
      else err (codes "unsupported auth method: " ++ c.auth_method)

  abbrev pub with_auth : HostConfig → Bool × List Text → Reply AuthMethod → Reply SshConfig
  with_auth c keys (err e) = err e
  with_auth c keys (ok a) =
      ok (record { user = c.user; insecure = keys.0; host_key_algorithms = keys.1; auth = a })

  unfoldable pub build_ssh_config : HostConfig → Text → W → Reply SshConfig
  unfolding host_key_algorithms
  build_ssh_config c secret w =
      with_auth c
        (host_keys c (n.read_file known_hosts_path w) (n.exists known_hosts_path w)
          (n.parse_known_hosts known_hosts_path w))
        (auth_method c secret w)

  -- A round of that loop: a connection, or the error to remember.
  abbrev pub shaken : Text → ℕ → Reply ℕ × W → Reply ℕ × W
  shaken target conn (err e, w) =
      (err (codes "ssh handshake " ++ (target ++ (codes ": " ++ e))), n.close_socket conn w)
  shaken target conn (ok c, w) = (ok c, w)

  abbrev pub reached : Text → Text → SshConfig → Reply ℕ × W → Reply ℕ × W
  reached address target cfg (err e, w) = (err (codes "dial " ++ (target ++ (codes ": " ++ e))), w)
  reached address target cfg (ok conn, w) = shaken target conn (n.handshake conn address cfg w)

  unfoldable pub dial_one : Text → SshConfig → Text → Text → W → Reply ℕ × W
  dial_one address cfg port addr w =
      let target = n.join_host_port addr port in
      reached address target cfg (n.dial_timeout target w)

  abbrev pub dial_addresses : Text → SshConfig → Text → Text → Option (List Text) → W → Reply ℕ × W
  dial_addresses address cfg host port none w = n.dial address cfg w
  dial_addresses address cfg host port (some []) w = n.dial address cfg w
  dial_addresses address cfg host port (some (a ∷ addrs)) w =
      let (r, w') = dial_each (dial_one address cfg port) [] (a ∷ addrs) w in
      (failed (codes "all addresses failed for " ++ (host ++ codes ": ")) r, w')

  abbrev pub dial_parts : Text → SshConfig → Option (Text × Text) → W → Reply ℕ × W
  dial_parts address cfg none w = n.dial address cfg w
  dial_parts address cfg (some (host, port)) w =
      dial_addresses address cfg host port (n.lookup_host host w) w

  unfoldable pub dial_ssh : Text → SshConfig → W → Reply ℕ × W
  unfolding dial_each dial_one
  dial_ssh address cfg w = dial_parts address cfg (n.split_host_port address) w

  abbrev pub output_of : Text → Reply ℕ × W → (Text × Option Text) × W
  output_of cmd (err e, w) = (([], some (codes "new session: " ++ e)), w)
  output_of cmd (ok s, w) = let (out, w') = n.combined_output s cmd w in (out, n.close_session s w')

  abbrev pub run_on : Option ℕ → Text → W → (Text × Option Text) × W
  run_on none cmd w = (([], some (codes "not connected")), w)
  run_on (some c) cmd w = output_of cmd (n.new_session c w)

  unfoldable pub run_command : Client → Text → W → (Text × Option Text) × W
  run_command c cmd w = run_on c.client cmd w

  -- Connect, from its last call back to its first. The new channel is `stop`.
  abbrev pub resolved : ℕ → Client → (Text × Option Text) × W → Option Text × (Client × W)
  resolved conn c ((out, some e), w) =
      (some (codes "resolve remote home: " ++ e), (c, (n.close conn w).1))
  resolved conn c ((out, none), w) = (none, (record c { home_dir = trim_space out }, w))

  abbrev pub dialled : ℕ → Client → Reply ℕ × W → Option Text × (Client × W)
  dialled stop c (err e, w) = (some (codes "ssh dial: " ++ e), (c, w))
  dialled stop c (ok conn, w) =
      let c' : Client = record c {
        client = some conn;
        connected = true;
        last_err = none;
        stop_keepalive = some stop;
      } in
      resolved conn c' (run_command c' (codes "echo $HOME") w)

  abbrev pub configured : ℕ → Client → Reply SshConfig → W → Option Text × (Client × W)
  configured stop c (err e) w = (some (codes "build ssh config: " ++ e), (c, w))
  configured stop c (ok cfg) w = dialled stop c (dial_ssh (address c.config) cfg w)

  unfoldable pub connect : ℕ → Client → W → Option Text × (Client × W)
  unfolding build_ssh_config dial_ssh run_command address
  connect stop c w = configured stop c (build_ssh_config c.config c.secret w) w

  -- The keepalive's channel that is closed stands in Keepalive.
  unfoldable pub close : Client → W → Option Text × (Client × W)
  close c w =
      let c' : Client = record c { stop_keepalive = none; connected = false } in
      elim c.client [
        | none ↦ (none, (c', w))
        | some conn ↦ let (e, w') = n.close conn w in (e, (c', w'))
      ]

  -- TestConnection: connected, the program found, and the message.
  abbrev pub which_run : Text → Option Text → Bool × (Bool × Text)
  which_run program (some e) =
      (true, (false, codes "Program '" ++ (program ++ codes "' not found on remote PATH")))
  which_run program none = (true, (true, []))

  abbrev pub tested : ℕ → Text → Reply ℕ × W → (Bool × (Bool × Text)) × W
  tested conn program (err e, w) =
      ((true, (false, codes "Session error: " ++ e)), (n.close conn w).1)
  tested conn program (ok s, w) =
      let cmd = codes "bash -lc 'which " ++ (program ++ codes "'") in
      let (r, w') = n.combined_output s cmd w in
      (which_run program r.1, (n.close conn (n.close_session s w')).1)

  abbrev pub test_dialled : Text → Reply ℕ × W → (Bool × (Bool × Text)) × W
  test_dialled program (err e, w) = ((false, (false, codes "Connection failed: " ++ e)), w)
  test_dialled program (ok conn, w) = tested conn program (n.new_session conn w)

  abbrev pub test_configured : HostConfig → Text → Reply SshConfig → W → (Bool × (Bool × Text)) × W
  test_configured c program (err e) w = ((false, (false, codes "Auth config error: " ++ e)), w)
  test_configured c program (ok cfg) w = test_dialled program (dial_ssh (address c) cfg w)

  unfoldable pub test_connection : HostConfig → Text → Text → W → (Bool × (Bool × Text)) × W
  unfolding build_ssh_config dial_ssh address
  test_connection c secret program w = test_configured c program (build_ssh_config c secret w) w
