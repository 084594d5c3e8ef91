-- ===== src/Ssh/HostManager/Open.antt =====
-- ssh/host_manager.go: a connection that the manager has for a host is not among those it closed.
use claude_squad_ide.Base.{
  ℕ, suc, ◌<◌, ◌≡◌, refl, sym, subst, ◌∙◌, ap, Bool, true, false, not, ◌==◌, ==_iff, ◌&&◌, ◌⊎◌, inl,
  inr, List, [], ◌∷◌, Option, none, some, Text, text_eq, text_eq_iff, Assoc, lookup, insert, delete,
  lookup-insert, lookup-delete, any, All, arith, if_intro, if_true, if_false, Bool-cases,
}
use claude_squad_ide.Session.Instance.World.{Reply}
use claude_squad_ide.Ssh.HostManager.{
  pos, decrement, is_positive, ManagedClient, Timer, HostManager, Network, get_client, client_for,
  new_client, release_client, released, fire, fire_timer, close_idle,
}
use claude_squad_ide.Ssh.HostManager.Held.{
  Holders, Run, started, got, let_go, fired, Counts, Run-IsCounted,
}

-- The manager has closed the connection.
abbrev pub is_closed : ℕ → List ℕ → Bool
is_closed c closed = any (λ d. d == c) closed

-- The host has an entry with that connection.
abbrev Has : Assoc ManagedClient → Text → ℕ → Type 0
Has m j c = (mc : ManagedClient) × (lookup j m ≡ some mc) × (mc.client ≡ c)

-- Connections are numbered from 0, those of different hosts differ, and none of them is closed.
abbrev IsOpen : Assoc ManagedClient → List ℕ → ℕ → Type 0
IsOpen m closed next =
    ((j : Text) (c : ℕ)
      → Has m j c
      → (c < next) × (is_closed c closed ≡ false) × ((i : Text) → Has m i c → i ≡ j))
    × All (λ c. c < next) closed

abbrev or_else {ℓ} : {A : Type ℓ} → A → Option A → A
or_else a none = a
or_else a (some b) = b

Has-fewer :
    (m m' : Assoc ManagedClient) (closed : List ℕ) (next : ℕ)
    → ((j : Text) (c : ℕ) → Has m' j c → Has m j c)
    → IsOpen m closed next
    → IsOpen m' closed next
Has-fewer m m' closed next f v =
    (λ j c h. let (a, b, u) = v.0 j c (f j c h) in (a, b, λ i k. u i (f i c k)), v.1)

All-later : (next : ℕ) (cs : List ℕ) → All (λ c. c < next) cs → All (λ c. c < suc next) cs
All-later next [] a = tt
All-later next (c ∷ cs) a = (omega (arith, a.0), All-later next cs a.1)

IsOpen-later :
    (m : Assoc ManagedClient) (closed : List ℕ) (next : ℕ)
    → IsOpen m closed next
    → IsOpen m closed (suc next)
IsOpen-later m closed next v =
    (λ j c h. let (a, b, u) = v.0 j c h in (omega (arith, a), b, u), All-later next closed v.1)

-- What has a connection after an entry is written.
Has-insert :
    (id j : Text) (mc : ManagedClient) (m : Assoc ManagedClient) (c : ℕ)
    → Has (insert id mc m) j c
    → ((id ≡ j) × (mc.client ≡ c)) ⊎ Has m j c
Has-insert id j mc m c (md, e, q) = elim (Bool-cases (text_eq id j)) [
  | inl same ↦ inl (
    (text_eq_iff id j).0 same,
    ap (λ (o : Option ManagedClient). (or_else mc o).client)
          (sym (if_true _ _ _ same) ∙ sym (lookup-insert id j mc m) ∙ e)
        ∙ q,
  )
  | inr other ↦ inr (md, sym (if_false _ _ _ other) ∙ sym (lookup-insert id j mc m) ∙ e, q)
]

-- The host keeps its connection when its entry is written again.
IsOpen-again :
    (id : Text) (mc mc' : ManagedClient) (m : Assoc ManagedClient) (closed : List ℕ) (next : ℕ)
    → lookup id m ≡ some mc
    → mc.client ≡ mc'.client
    → IsOpen m closed next
    → IsOpen (insert id mc' m) closed next
IsOpen-again id mc mc' m closed next e q v =
    Has-fewer m (insert id mc' m) closed next
      (λ j c h. elim (Has-insert id j mc' m c h) [
        | inl (same, k) ↦ (mc, ap (λ i. lookup i m) (sym same) ∙ e, q ∙ k)
        | inr old ↦ old
      ])
      v

Has-delete :
    (id j : Text) (m : Assoc ManagedClient) (c : ℕ)
    → Has (delete id m) j c
    → (text_eq id j ≡ false) × Has m j c
Has-delete id j m c (md, e, q) = elim (Bool-cases (text_eq id j)) [
  | inl same ↦
      absurd (cc (sym (if_true (text_eq id j) none _ same) ∙ sym (lookup-delete id j m) ∙ e))
  | inr other ↦ (other, (md, sym (if_false _ _ _ other) ∙ sym (lookup-delete id j m) ∙ e, q))
]

IsOpen-delete :
    (id : Text) (m : Assoc ManagedClient) (closed : List ℕ) (next : ℕ)
    → IsOpen m closed next
    → IsOpen (delete id m) closed next
IsOpen-delete id m closed next v =
    Has-fewer m (delete id m) closed next (λ j c h. (Has-delete id j m c h).1) v

not_closed_yet : (next : ℕ) (cs : List ℕ) → All (λ c. c < next) cs → is_closed next cs ≡ false
not_closed_yet next [] a = refl
not_closed_yet next (c ∷ cs) a = ground (arith, a.0, not_closed_yet next cs a.1)

IsOpen-new :
    (id : Text) (mc : ManagedClient) (m : Assoc ManagedClient) (closed : List ℕ) (next : ℕ)
    → mc.client ≡ next
    → IsOpen m closed next
    → IsOpen (insert id mc m) closed (suc next)
IsOpen-new id mc m closed next e v = (
  λ j c h. elim (Has-insert id j mc m c h) [
    | inl (same, k) ↦ (
      omega (arith, e, k),
      subst (λ n. is_closed n closed ≡ false) (sym e ∙ k) (not_closed_yet next closed v.1),
      λ i g. elim (Has-insert id i mc m c g) [
        | inl (other, l) ↦ sym other ∙ same
        | inr old ↦ absurd (omega (arith, (v.0 i c old).0, e, k))
      ],
    )
    | inr old ↦
        let (a, b, u) = v.0 j c old in
        (
          omega (arith, a),
          b,
          λ i g. elim (Has-insert id i mc m c g) [
            | inl (other, l) ↦ absurd (omega (arith, a, e, l))
            | inr older ↦ u i older
          ],
        )
  ],
  All-later next closed v.1,
)

IsOpen-close :
    (id : Text) (mc : ManagedClient) (m : Assoc ManagedClient) (closed : List ℕ) (next : ℕ)
    → lookup id m ≡ some mc
    → IsOpen m closed next
    → IsOpen (delete id m) (mc.client ∷ closed) next
IsOpen-close id mc m closed next e v = (
  λ j c h.
      let (other, k) = Has-delete id j m c h in
      let (a, b, u) = v.0 j c k in
      (
        a,
        elim (Bool-cases (mc.client == c)) [
          | inl same ↦
              absurd (
                cc (sym ((text_eq_iff id j).1 (u id (mc, e, (==_iff mc.client c).0 same))) ∙ other))
          | inr apart ↦ ground (arith, apart, b)
        ],
        λ i g. u i (Has-delete id i m c g).1,
      ),
  ((v.0 id mc.client (mc, e, refl)).0, v.1),
)

abbrev Stays : HostManager → Type 0
Stays m = IsOpen m.clients m.closed m.next

new-Stays : (id : Text) (e : Option Text) (m : HostManager) → Stays m → Stays (new_client id e m).1
new-Stays id (some e) m v = v
new-Stays id none m v = IsOpen-new id _ m.clients m.closed m.next refl v

got-Stays :
    {W D : Type 0} (n : Network W D) (w : W) (id : Text) (o : Option ManagedClient)
    (m : HostManager)
    → lookup id m.clients ≡ o
    → Stays m
    → Stays (client_for n w id o m).1
got-Stays n w id none m e v = new-Stays id _ m v
got-Stays n w id (some mc) m e v =
    if_intro (λ (r : Reply ℕ × HostManager). Stays r.1) mc.connected _ _
      (λ _. IsOpen-again id mc _ m.clients m.closed m.next e refl v)
      (λ _. new-Stays id _ _ (IsOpen-delete id m.clients m.closed m.next v))

released-Stays :
    (id : Text) (o : Option ManagedClient) (m : HostManager)
    → lookup id m.clients ≡ o
    → Stays m
    → Stays (released id o m)
released-Stays id none m e v = v
released-Stays id (some mc) m e v =
    if_intro Stays (is_positive (decrement mc.ref_count)) _ _
      (λ _. IsOpen-again id mc _ m.clients m.closed m.next e refl v)
      (λ _.
        IsOpen-later _ m.closed m.next (IsOpen-again id mc _ m.clients m.closed m.next e refl v))

idle-Stays :
    (t : Timer) (o : Option ManagedClient) (m : HostManager)
    → lookup t.host m.clients ≡ o
    → Stays m
    → Stays (close_idle t o m)
idle-Stays t none m e v = v
idle-Stays t (some mc) m e v =
    if_intro Stays ((mc.number == t.managed) && not (is_positive mc.ref_count)) _ _
      (λ _. IsOpen-close t.host mc m.clients m.closed m.next e v) (λ _. v)

fired-Stays : (o : Option Timer) (m : HostManager) → Stays m → Stays (fire_timer o m)
fired-Stays none m v = v
fired-Stays (some t) m v = idle-Stays t (lookup t.host m.clients) _ refl v

Run-Stays : {W D : Type 0} (n : Network W D) (m : HostManager) (h : Holders) → Run n m h → Stays m
unfolding get_client release_client fire lookup
Run-Stays n m h started = (λ j c (mc, e, q). cc, tt)
Run-Stays n m h (got w id m' h' r) = got-Stays n w id _ m' refl (Run-Stays n m' h' r)
Run-Stays n m h (let_go id k m' h' r s) = released-Stays id _ m' refl (Run-Stays n m' h' r)
Run-Stays n m h (fired t m' h' r) = fired-Stays _ m' (Run-Stays n m' h' r)

-- An entry counts its holders, is connected and has a connection that was not closed; without an entry
-- there are no holders.
abbrev pub Holds : Option ManagedClient → ℕ → List ℕ → Type 0
Holds none k closed = k ≡ 0
Holds (some mc) k closed =
    (mc.ref_count ≡ pos k) × (mc.connected ≡ true) × (is_closed mc.client closed ≡ false)

Counts-Holds :
    (j : Text) (o : Option ManagedClient) (m : HostManager) (k : ℕ)
    → lookup j m.clients ≡ o
    → Stays m
    → Counts o k
    → Holds o k m.closed
Counts-Holds j none m k e v c = c
Counts-Holds j (some mc) m k e v c = (c.0, c.1, (v.0 j mc.client (mc, e, refl)).1)

-- While no connection is lost and only who holds a connection releases it, the entry of a host
-- counts exactly its holders, is connected, and has a connection that was not closed, and a host
-- without an entry has no holder: the connection that somebody holds is never closed.
pub Run-Holds :
    {W D : Type 0} (n : Network W D) (m : HostManager) (h : Holders)
    → Run n m h
    → (j : Text) → Holds (lookup j m.clients) (h j) m.closed
Run-Holds n m h r j =
    Counts-Holds j (lookup j m.clients) m (h j) refl (Run-Stays n m h r) (Run-IsCounted n m h r j)
