-- ===== src/Ssh/HostManager/Held.antt =====
-- ssh/host_manager.go: the references that are counted for a host.
use claude_squad_ide.Base.{
  ℕ, zero, suc, ◌-◌, ◌≡◌, refl, sym, subst, ◌∙◌, ap, Bool, true, false, not, ◌==◌, ◌&&◌, Option,
  none, some, Text, text_eq, text_eq_iff, Assoc, lookup, insert, delete, lookup-insert,
  lookup-delete, arith, if_intro, if◌then◌else◌,
}
use claude_squad_ide.Session.Instance.World.{Reply, ok, err}
use claude_squad_ide.Ssh.HostManager.{
  ℤ, pos, increment, decrement, is_positive, ManagedClient, Timer, HostManager, Network,
  new_host_manager, get_client, client_for, new_client, release_client, released, fire, fire_timer,
  close_idle,
}

-- How many sessions hold the connection of each host.
abbrev pub Holders : Type 0
Holders = Text → ℕ

abbrev pub one_more : Text → Holders → Holders
one_more id h j = if text_eq id j then suc (h j) else h j

abbrev pub one_less : Text → Holders → Holders
one_less id h j = if text_eq id j then h j - 1 else h j

abbrev pub after_get : Text → Reply ℕ → Holders → Holders
after_get id (ok c) h = one_more id h
after_get id (err e) h = h

-- The runs in which no connection is lost, and only who holds a connection releases it.
pub data Run {W D : Type 0} (n : Network W D) : HostManager → Holders → Type 0 where
  started : Run n new_host_manager (λ j. 0)
  got :
      (w : W) (id : Text) (m : HostManager) (h : Holders)
      → Run n m h
      → Run n (get_client n w id m).1 (after_get id (get_client n w id m).0 h)
  let_go :
      (id : Text) (k : ℕ) (m : HostManager) (h : Holders)
      → Run n m h
      → h id ≡ suc k
      → Run n (release_client id m) (one_less id h)
  fired : (t : ℕ) (m : HostManager) (h : Holders) → Run n m h → Run n (fire t m) h

-- An entry counts its holders; without one there are none.
abbrev pub Counts : Option ManagedClient → ℕ → Type 0
Counts none k = k ≡ 0
Counts (some mc) k = (mc.ref_count ≡ pos k) × (mc.connected ≡ true)

abbrev pub IsCounted : Assoc ManagedClient → Holders → Type 0
IsCounted m h = (j : Text) → Counts (lookup j m) (h j)

Counts-if :
    (b : Bool) (o p : Option ManagedClient) (k l : ℕ)
    → (b ≡ true → Counts o k)
    → (b ≡ false → Counts p l)
    → Counts (if b then o else p) (if b then k else l)
Counts-if true o p k l t f = t refl
Counts-if false o p k l t f = f refl

-- An entry that is written, and a number of holders that changes with it.
Counts-insert :
    (id j : Text) (mc : ManagedClient) (m : Assoc ManagedClient) (k l : ℕ)
    → (text_eq id j ≡ true → Counts (some mc) k)
    → Counts (lookup j m) l
    → Counts (lookup j (insert id mc m)) (if text_eq id j then k else l)
Counts-insert id j mc m k l t c =
    subst (λ o. Counts o (if text_eq id j then k else l)) (sym (lookup-insert id j mc m))
      (Counts-if (text_eq id j) _ _ k l t (λ _. c))

Counts-delete :
    (id j : Text) (m : Assoc ManagedClient) (k : ℕ)
    → (text_eq id j ≡ true → k ≡ 0)
    → (text_eq id j ≡ false → Counts (lookup j m) k)
    → Counts (lookup j (delete id m)) k
Counts-delete id j m k t f =
    subst (λ o. Counts o k) (sym (lookup-delete id j m))
      (if_intro (λ o. Counts o k) (text_eq id j) _ _ t f)

-- What is counted for a host, at another name of it.
Counts-same :
    (id j : Text) (m : Assoc ManagedClient) (h : Holders) (o : Option ManagedClient)
    → lookup id m ≡ o
    → IsCounted m h
    → text_eq id j ≡ true
    → Counts o (h j)
Counts-same id j m h o e c t =
    let i : id ≡ j = (text_eq_iff id j).0 t in
    subst (λ o. Counts o (h j)) e (subst (λ x. Counts (lookup x m) (h j)) (sym i) (c j))

new-IsCounted :
    (id : Text) (e : Option Text) (m : HostManager) (h : Holders)
    → lookup id m.clients ≡ none
    → IsCounted m.clients h
    → IsCounted (new_client id e m).1.clients (after_get id (new_client id e m).0 h)
new-IsCounted id (some e) m h n c j = c j
new-IsCounted id none m h n c j =
    Counts-insert id j _ m.clients _ _
      (λ t. (ap pos (ap suc (sym (Counts-same id j m.clients h none n c t))), refl)) (c j)

got-IsCounted :
    {W D : Type 0} (n : Network W D) (w : W) (id : Text) (o : Option ManagedClient)
    (m : HostManager) (h : Holders)
    → lookup id m.clients ≡ o
    → IsCounted m.clients h
    → IsCounted (client_for n w id o m).1.clients (after_get id (client_for n w id o m).0 h)
got-IsCounted n w id none m h e c = new-IsCounted id _ m h e c
got-IsCounted n w id (some mc) m h e c =
    let same = Counts-same id id m.clients h (some mc) e c ((text_eq_iff id id).1 refl) in
    if_intro (λ (r : Reply ℕ × HostManager). IsCounted r.1.clients (after_get id r.0 h))
      mc.connected _ _
      (λ _ j.
        Counts-insert id j _ m.clients _ _
          (λ t. let (p, q) = Counts-same id j m.clients h (some mc) e c t in (ap increment p, q))
          (c j))
      (λ lost. absurd (ground (arith, lost, same.1)))

released-IsCounted :
    (id : Text) (k : ℕ) (o : Option ManagedClient) (m : HostManager) (h : Holders)
    → lookup id m.clients ≡ o
    → h id ≡ suc k
    → IsCounted m.clients h
    → IsCounted (released id o m).clients (one_less id h)
released-IsCounted id k none m h e s c =
    absurd (ground (arith, s, Counts-same id id m.clients h none e c ((text_eq_iff id id).1 refl)))
released-IsCounted id k (some mc) m h e s c =
    let fewer : (j : Text)
        → text_eq id j ≡ true
        → (decrement mc.ref_count ≡ pos (h j - 1)) × (mc.connected ≡ true) =
      λ j t.
        let (p, q) = Counts-same id j m.clients h (some mc) e c t in
        let held : h j ≡ suc k = ap h (sym ((text_eq_iff id j).0 t)) ∙ s in
        (ap decrement (p ∙ ap pos held) ∙ ap pos (omega (arith, held)), q) in
    if_intro (λ (r : HostManager). IsCounted r.clients (one_less id h))
      (is_positive (decrement mc.ref_count)) _ _
      (λ _ j. Counts-insert id j _ m.clients _ _ (fewer j) (c j))
      (λ _ j. Counts-insert id j _ m.clients _ _ (fewer j) (c j))

unheld : (z : ℤ) (k : ℕ) → z ≡ pos k → is_positive z ≡ false → k ≡ 0
unheld z zero e p = refl
unheld z (suc k) e p = absurd (ground (arith, p, ap is_positive e))

idle-IsCounted :
    (t : Timer) (o : Option ManagedClient) (m : HostManager) (h : Holders)
    → lookup t.host m.clients ≡ o
    → IsCounted m.clients h
    → IsCounted (close_idle t o m).clients h
idle-IsCounted t none m h e c = c
idle-IsCounted t (some mc) m h e c =
    if_intro (λ (r : HostManager). IsCounted r.clients h)
      ((mc.number == t.managed) && not (is_positive mc.ref_count)) _ _
      (λ idle j.
        Counts-delete t.host j m.clients (h j)
          (λ s.
            unheld mc.ref_count (h j) (Counts-same t.host j m.clients h (some mc) e c s).0
              (ground (arith, idle)))
          (λ _. c j))
      (λ _. c)

fired-IsCounted :
    (o : Option Timer) (m : HostManager) (h : Holders)
    → IsCounted m.clients h
    → IsCounted (fire_timer o m).clients h
fired-IsCounted none m h c = c
fired-IsCounted (some t) m h c = idle-IsCounted t (lookup t.host m.clients) _ h refl c

-- While no connection is lost and only who holds a connection releases it, the entry of a host
-- counts exactly its holders and is connected, and a host without an entry has no holder.
pub Run-IsCounted :
    {W D : Type 0} (n : Network W D) (m : HostManager) (h : Holders)
    → Run n m h
    → IsCounted m.clients h
unfolding get_client release_client fire lookup
Run-IsCounted n m h started = λ j. refl
Run-IsCounted n m h (got w id m' h' r) = got-IsCounted n w id _ m' h' refl (Run-IsCounted n m' h' r)
Run-IsCounted n m h (let_go id k m' h' r s) =
    released-IsCounted id k _ m' h' refl s (Run-IsCounted n m' h' r)
Run-IsCounted n m h (fired t m' h' r) = fired-IsCounted _ m' h' (Run-IsCounted n m' h' r)
