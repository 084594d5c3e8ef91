-- ===== src/Ssh/HostManager/Idle.antt =====
-- ssh/host_manager.go: a connection that nobody holds any more is closed.
use claude_squad_ide.Base.{
  ℕ, suc, ◌≡◌, refl, sym, subst, ◌∙◌, ap, true, not, ◌==◌, ==_iff, ◌&&◌, List, [], ◌∷◌, Option,
  none, some, Text, lookup, insert, delete, lookup-insert_self, lookup-delete_self, find, keep,
  arith, if_true,
}
use claude_squad_ide.Session.Instance.World.{ok}
use claude_squad_ide.Ssh.HostManager.{
  pos, ManagedClient, Timer, HostManager, Network, get_client, client_for, release_client, released,
  fire, fire_timer, close_idle, reused,
}
use claude_squad_ide.Ssh.HostManager.Held.{Holders, Run, Run-IsCounted, Counts}

-- The entry of a host after its last holder has gone.
abbrev left : ManagedClient → ℕ → ManagedClient
left mc t = record mc { ref_count = pos 0; idle_timer = some t }

abbrev timer_of : Text → ManagedClient → ℕ → Timer
timer_of id mc t = record { number = t; host = id; managed = mc.number }

abbrev idle : Text → ManagedClient → HostManager → HostManager
idle id mc m = record m {
  clients = insert id (left mc m.next) m.clients;
  timers = timer_of id mc m.next ∷ m.timers;
  next = suc m.next;
}

==_same : (n : ℕ) → (n == n) ≡ true
==_same n = (==_iff n n).1 refl

released_last :
    (id : Text) (mc : ManagedClient) (m : HostManager)
    → mc.ref_count ≡ pos 1
    → released id (some mc) m ≡ idle id mc m
released_last id mc m e = rw e refl

find-keep-none :
    (t : ℕ) (ts : List Timer)
    → find (λ u. u.number == t) (keep (λ u. not (u.number == t)) ts) ≡ none
find-keep-none t [] = refl
find-keep-none t (u ∷ ts) = ground (arith, find-keep-none t ts)

abbrev closed_after : Text → ManagedClient → HostManager → HostManager
closed_after id mc m = record m {
  clients = delete id (insert id (left mc m.next) m.clients);
  timers = keep (λ u. not (u.number == m.next)) (timer_of id mc m.next ∷ m.timers);
  closed = mc.client ∷ m.closed;
  next = suc m.next;
}

fire-idle :
    (id : Text) (mc : ManagedClient) (m : HostManager)
    → fire m.next (idle id mc m) ≡ closed_after id mc m
unfolding fire
fire-idle id mc m =
    let t = timer_of id mc m.next in
    let others = keep (λ (u : Timer). not (u.number == m.next)) (t ∷ m.timers) in
    let m' : HostManager = record (idle id mc m) { timers = others } in
    ap (λ o. fire_timer o (idle id mc m)) (if_true (m.next == m.next) (some t) _ (==_same m.next))
    ∙ ap (λ o. close_idle t o m') (lookup-insert_self id (left mc m.next) m.clients)
    ∙ if_true ((mc.number == mc.number) && true) _ _ (rw (==_same mc.number) refl)

-- The entry of a host that somebody takes again before its timer fires.
abbrev taken : Text → ManagedClient → HostManager → HostManager
taken id mc m = reused id (left mc m.next) (idle id mc m)

get_idle :
    {W D : Type 0} (n : Network W D) (w : W) (id : Text) (mc : ManagedClient) (m : HostManager)
    → mc.connected ≡ true
    → get_client n w id (idle id mc m) ≡ (ok mc.client, taken id mc m)
unfolding get_client
get_idle n w id mc m c =
    ap (λ o. client_for n w id o (idle id mc m)) (lookup-insert_self id (left mc m.next) m.clients)
    ∙ if_true mc.connected _ _ c

fire_taken :
    (id : Text) (mc : ManagedClient) (m : HostManager) → fire m.next (taken id mc m) ≡ taken id mc m
unfolding fire
fire_taken id mc m =
    ap (λ o. fire_timer o (taken id mc m))
      (find-keep-none m.next (timer_of id mc m.next ∷ m.timers))

-- What happens to a manager after its last release of a host.
abbrev Idles :
    {W D : Type 0} → Network W D → Text → ManagedClient → ℕ → List ℕ → HostManager → Type 0
Idles {W} {D} n id mc t closed r =
    (lookup id (fire t r).clients ≡ none)
    × ((fire t r).closed ≡ mc.client ∷ closed)
    × ((w : W)
        → ((get_client n w id r).0 ≡ ok mc.client)
          × (fire t (get_client n w id r).1 ≡ (get_client n w id r).1))

idles :
    {W D : Type 0} (n : Network W D) (id : Text) (mc : ManagedClient) (m : HostManager)
    → mc.connected ≡ true
    → Idles n id mc m.next m.closed (idle id mc m)
idles n id mc m c = (
  ap (λ (x : HostManager). lookup id x.clients) (fire-idle id mc m) ∙ lookup-delete_self id _,
  ap (λ (x : HostManager). x.closed) (fire-idle id mc m),
  λ w. (
    ap (λ r. r.0) (get_idle n w id mc m c),
    subst (λ r. fire m.next r.1 ≡ r.1) (sym (get_idle n w id mc m c)) (fire_taken id mc m),
  ),
)

last_released :
    {W D : Type 0} (n : Network W D) (id : Text) (o : Option ManagedClient) (m : HostManager)
    → Counts o 1
    → (mc : ManagedClient) × (o ≡ some mc) × Idles n id mc m.next m.closed (released id o m)
last_released n id none m c = absurd (omega (arith, c))
last_released n id (some mc) m c = (
  mc,
  refl,
  subst (Idles n id mc m.next m.closed) (sym (released_last id mc m c.0)) (idles n id mc m c.1),
)

-- In a run where no connection is lost and only holders release, when the only holder of a host's
-- connection releases it, the timer that this starts closes the connection and removes the host
-- when it fires; if somebody gets the connection before that, he has the same one, and the timer
-- does nothing any more.
pub last_release_closes :
    {W D : Type 0} (n : Network W D) (m : HostManager) (h : Holders) (id : Text)
    → Run n m h
    → h id ≡ 1
    → (mc : ManagedClient) × (lookup id m.clients ≡ some mc)
      × (lookup id (fire m.next (release_client id m)).clients ≡ none)
      × ((fire m.next (release_client id m)).closed ≡ mc.client ∷ m.closed)
      × ((w : W)
          → ((get_client n w id (release_client id m)).0 ≡ ok mc.client)
            × (fire m.next (get_client n w id (release_client id m)).1
                ≡ (get_client n w id (release_client id m)).1))
unfolding release_client
last_release_closes n m h id r one =
    let (mc, e, i) =
      last_released n id (lookup id m.clients) m
        (subst (Counts (lookup id m.clients)) one (Run-IsCounted n m h r id)) in
    (mc, e, i.0, i.1, i.2)
