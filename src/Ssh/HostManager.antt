-- ===== src/Ssh/HostManager.antt =====
-- ssh/host_manager.go: one connection per host, shared by the sessions on it and closed when idle.
pub mod Held
pub mod Open
pub mod Idle
use claude_squad_ide.Base.{
  ℕ, zero, suc, ◌+◌, Bool, true, false, not, ◌&&◌, ◌||◌, ◌==◌, List, [], ◌∷◌, ◌++◌, Option, none,
  some, Text, codes, text_eq, keep, find, Assoc, lookup, insert, delete, map, if◌then◌else◌,
}
use claude_squad_ide.Session.Instance.World.{Reply, ok, err}
use claude_squad_ide.Ssh.Hosts.{HostConfig, HostStore, get_by_id}

-- The integers, as far as reference counts need them: `negsuc n` is -(n + 1).
pub data ℤ : Type 0 where
  pos negsuc : ℕ → ℤ

abbrev pub increment : ℤ → ℤ
increment (pos n) = pos (suc n)
increment (negsuc zero) = pos zero
increment (negsuc (suc n)) = negsuc n

abbrev pub decrement : ℤ → ℤ
decrement (pos zero) = negsuc zero
decrement (pos (suc n)) = pos n
decrement (negsuc n) = negsuc (suc n)

abbrev pub is_positive : ℤ → Bool
is_positive (pos zero) = false
is_positive (pos (suc n)) = true
is_positive (negsuc n) = false

-- `number` stands for the address of the structure, and `client` for the connection, whose
-- process manager has the same number.
pub record ManagedClient : Type 0 where
  pub number : ℕ
  pub client : ℕ
  pub connected : Bool
  pub ref_count : ℤ
  pub idle_timer : Option ℕ

-- A timer that runs, and the structure that its function closes.
pub record Timer : Type 0 where
  pub number : ℕ
  pub host : Text
  pub managed : ℕ

pub record HostManager : Type 0 where
  pub clients : Assoc ManagedClient
  pub timers : List Timer
  -- The connections that were closed, the last first.
  pub closed : List ℕ
  -- The next number of a structure, a connection or a timer.
  pub next : ℕ

abbrev pub new_host_manager : HostManager
new_host_manager = record { clients = []; timers = []; closed = []; next = 0 }

-- What the manager uses: the store of hosts, the keychain, and `Client.Connect`.
pub record Network (W D : Type 0) : Type 0 where
  pub store : HostStore W D
  pub keychain : Text → W → Reply Text
  pub connect : HostConfig → Text → W → Option Text

abbrev pub needs_secret : HostConfig → Bool
needs_secret c =
    text_eq c.auth_method (codes "password") || text_eq c.auth_method (codes "key+passphrase")

abbrev pub stop : Option ℕ → List Timer → List Timer
stop none ts = ts
stop (some t) ts = keep (λ u. not (u.number == t)) ts

abbrev pub connect_error : HostConfig → Option Text → Option Text
connect_error c none = none
connect_error c (some e) = some (codes "connect to " ++ (c.name ++ (codes ": " ++ e)))

abbrev pub connect_with : {W D : Type 0} → Network W D → W → HostConfig → Reply Text → Option Text
connect_with n w c (err e) = some (codes "get secret from keychain: " ++ e)
connect_with n w c (ok secret) = connect_error c (n.connect c secret w)

abbrev pub connect_host : {W D : Type 0} → Network W D → W → Text → Reply HostConfig → Option Text
connect_host n w id (err e) = some (codes "get host config: " ++ e)
connect_host n w id (ok c) = connect_with n w c (if needs_secret c then n.keychain id w else ok [])

-- The second half of GetClient: a new connection, unless it fails.
abbrev pub new_client : Text → Option Text → HostManager → Reply ℕ × HostManager
new_client id (some e) m = (err e, m)
new_client id none m = (
  ok m.next,
  record m {
    clients =
        insert id
          (record {
            number = m.next;
            client = m.next;
            connected = true;
            ref_count = pos 1;
            idle_timer = none;
          })
          m.clients;
    next = suc m.next;
  },
)

abbrev pub reused : Text → ManagedClient → HostManager → HostManager
reused id mc m = record m {
  clients =
      insert id (record mc { ref_count = increment mc.ref_count; idle_timer = none }) m.clients;
  timers = stop mc.idle_timer m.timers;
}

abbrev pub without : Text → HostManager → HostManager
without id m = record m { clients = delete id m.clients }

abbrev pub client_for :
    {W D : Type 0}
    → Network W D
    → W
    → Text
    → Option ManagedClient
    → HostManager
    → Reply ℕ × HostManager
client_for n w id none m = new_client id (connect_host n w id (get_by_id n.store id w)) m
client_for n w id (some mc) m =
    if mc.connected
    then (ok mc.client, reused id mc m)
    else new_client id (connect_host n w id (get_by_id n.store id w)) (without id m)

unfoldable pub get_client :
    {W D : Type 0} → Network W D → W → Text → HostManager → Reply ℕ × HostManager
get_client n w id m = client_for n w id (lookup id m.clients) m

unfoldable pub get_process_manager : Text → HostManager → Reply ℕ
get_process_manager id m = elim (lookup id m.clients) [
  | none ↦ err (codes "no connection for host " ++ id)
  | some mc ↦ ok mc.number
]

-- A client with one reference less, and its timer if none is left.
abbrev pub released : Text → Option ManagedClient → HostManager → HostManager
released id none m = m
released id (some mc) m =
    let count = decrement mc.ref_count in
    if is_positive count
    then record m { clients = insert id (record mc { ref_count = count }) m.clients }
    else record m {
      clients = insert id (record mc { ref_count = count; idle_timer = some m.next }) m.clients;
      timers = record { number = m.next; host = id; managed = mc.number } ∷ m.timers;
      next = suc m.next;
    }

unfoldable pub release_client : Text → HostManager → HostManager
release_client id m = released id (lookup id m.clients) m

-- The function of an idle timer.
abbrev pub close_idle : Timer → Option ManagedClient → HostManager → HostManager
close_idle t none m = m
close_idle t (some mc) m =
    if (mc.number == t.managed) && not (is_positive mc.ref_count)
    then record m { clients = delete t.host m.clients; closed = mc.client ∷ m.closed }
    else m

abbrev pub fire_timer : Option Timer → HostManager → HostManager
fire_timer none m = m
fire_timer (some t) m =
    close_idle t (lookup t.host m.clients)
      (record m { timers = keep (λ u. not (u.number == t.number)) m.timers })

-- Thirty seconds after it was started, unless it was stopped.
unfoldable pub fire : ℕ → HostManager → HostManager
fire t m = fire_timer (find (λ u. u.number == t) m.timers) m

-- The network loses the connection of a host.
abbrev pub lost : Text → Option ManagedClient → HostManager → HostManager
lost id none m = m
lost id (some mc) m = record m { clients = insert id (record mc { connected = false }) m.clients }

unfoldable pub disconnect : Text → HostManager → HostManager
disconnect id m = lost id (lookup id m.clients) m

abbrev pub connected_of : Option ManagedClient → Bool
connected_of none = false
connected_of (some mc) = mc.connected

unfoldable pub is_connected : Text → HostManager → Bool
is_connected id m = connected_of (lookup id m.clients)

unfoldable pub close : HostManager → HostManager
close m = record m { clients = []; closed = map (λ (id, mc). mc.client) m.clients ++ m.closed }

unfoldable pub get_all_process_managers : HostManager → List ℕ
get_all_process_managers m = map (λ (id, mc). mc.number) m.clients
