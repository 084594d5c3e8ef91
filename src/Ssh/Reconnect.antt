-- ===== src/Ssh/Reconnect.antt =====
-- ssh/host_manager.go: the loop that reconnects a host whose connection was lost. Times are in
-- seconds from its start.
use claude_squad_ide.Base.{
  ℕ, zero, suc, ◌+◌, ◌*◌, ◌<◌, ◌≡◌, min, Bool, true, false, ◌||◌, [], Option, none, some, Text, ltb,
  lookup, insert, if◌then◌else◌,
}
use claude_squad_ide.Session.Instance.World.{Reply, ok, err}
use claude_squad_ide.Ssh.Hosts.{HostConfig, get_by_id}
use claude_squad_ide.Ssh.HostManager.{Network, HostManager, ManagedClient, needs_secret}

abbrev pub max_duration : ℕ
max_duration = 300

abbrev pub max_delay : ℕ
max_delay = 30

abbrev pub first_delay : ℕ
first_delay = 3

pub data Verdict : Type 0 where
  gave_up removed no_config reconnected : Verdict

-- What one round ends with; `none` is another round.
abbrev pub secret_or_empty : Reply Text → Text
secret_or_empty (ok s) = s
secret_or_empty (err e) = []

abbrev pub dialled : Option Text → Option Verdict
dialled none = some reconnected
dialled (some e) = none

abbrev pub configured : {W D : Type 0} → Network W D → W → Text → Reply HostConfig → Option Verdict
configured n w id (err e) = some no_config
configured n w id (ok c) =
    dialled (n.connect c (if needs_secret c then secret_or_empty (n.keychain id w) else []) w)

abbrev pub of_entry :
    {W D : Type 0} → Network W D → W → Text → Option ManagedClient → Option Verdict
of_entry n w id none = some removed
of_entry n w id (some mc) = configured n w id (get_by_id n.store id w)

unfoldable pub reconnect_round :
    {W D : Type 0} → Network W D → W → HostManager → Text → Option Verdict
reconnect_round n w m id = of_entry n w id (lookup id m.clients)

-- A round as the loop meets it: the outside, the manager, and how long the round takes.
pub record Moment (W : Type 0) : Type 0 where
  pub outside : W
  pub manager : HostManager
  pub taken : ℕ

-- The verdict, and how many rounds looked for the host.
abbrev pub one_more : Option (Verdict × ℕ) → Option (Verdict × ℕ)
one_more none = none
one_more (some (v, k)) = some (v, suc k)

abbrev pub or_again : Option Verdict → Option (Verdict × ℕ) → Option (Verdict × ℕ)
or_again none rest = one_more rest
or_again (some v) rest = some (v, 1)

-- The loop from its round `i` on, at `elapsed` seconds; `none` is that the fuel does not do.
unfoldable pub reconnect_from :
    {W D : Type 0} → Network W D → Text → (ℕ → Moment W) → ℕ → ℕ → ℕ → ℕ → Option (Verdict × ℕ)
reconnect_from n id at zero i delay elapsed = none
reconnect_from n id at (suc fuel) i delay elapsed =
    let now = elapsed + delay in
    let rest =
      reconnect_from n id at fuel (suc i) (min (delay * 2) max_delay) (now + (at i).taken) in
    if ltb max_duration now
    then some (gave_up, 0)
    else or_again (reconnect_round n (at i).outside (at i).manager id) rest

unfoldable pub reconnect_loop :
    {W D : Type 0} → Network W D → Text → (ℕ → Moment W) → ℕ → Option (Verdict × ℕ)
unfolding reconnect_from
reconnect_loop n id at fuel = reconnect_from n id at fuel 0 first_delay 0

abbrev pub store_client : ℕ → Text → Option ManagedClient → HostManager → HostManager
store_client client id none m = m
store_client client id (some mc) m = record m {
  clients = insert id (record mc { client = client; connected = true }) m.clients;
}

-- A new connection in the place of the lost one; the structure and its holders stay.
unfoldable pub finish_reconnect : Text → HostManager → HostManager
finish_reconnect id m =
    store_client m.next id (lookup id m.clients) (record m { next = suc m.next })

-- Whether so much fuel does whatever the rounds find, if they take no time.
abbrev suffices : ℕ → ℕ → ℕ → Bool
suffices zero delay elapsed = false
suffices (suc fuel) delay elapsed =
    ltb max_duration (elapsed + delay)
    || suffices fuel (min (delay * 2) max_delay) (elapsed + delay)

-- The loop ends, after fewer rounds than that.
abbrev EndsBefore : ℕ → Option (Verdict × ℕ) → Type 0
EndsBefore k r = (v : Verdict) × (j : ℕ) × (r ≡ some (v, j)) × (j < k)
