-- ===== src/Ssh/Client/Dialled.antt =====
-- ssh/client.go: which address a connection is made to, and what a failed Connect leaves behind.
use claude_squad_ide.Base.{
  ℕ, ◌≡◌, refl, sym, subst, ap, true, List, [], ◌∷◌, ◌++◌, Option, none, some, Text, codes,
  trim_space,
}
use claude_squad_ide.Session.Instance.World.{Reply, ok, err}
use claude_squad_ide.Ssh.Client.{
  Net, Client, SshConfig, address, dial_ssh, dial_each, run_command, failed, dial_one, dial_parts,
  dial_addresses,
}

-- The addresses are tried in turn, and each fails.
pub data AllFail {W : Type 0} (one : Text → W → Reply ℕ × W) : List Text → W → W → Type 0 where
  no_address : {w : W} → AllFail one [] w w
  next_address :
      {a : Text} {addrs : List Text} {w w₁ w₂ : W} {e : Text}
      → one a w ≡ (err e, w₁)
      → AllFail one addrs w₁ w₂
      → AllFail one (a ∷ addrs) w w₂

module _ {W : Type 0} (one : Text → W → Reply ℕ × W) where
  -- The first address that answers is taken, after those before it have failed; or all have failed.
  abbrev pub DialOutcome : List Text → W → Reply ℕ × W → Type 0
  DialOutcome addrs w (ok c, w') =
      (before : List Text) × (a : Text) × (after : List Text) × (w₁ : W) × (addrs
        ≡ before ++ a ∷ after)
      × AllFail one before w w₁
      × (one a w₁ ≡ (ok c, w'))
  DialOutcome addrs w (err e, w') = AllFail one addrs w w'

  after_failure :
      (a : Text) (addrs : List Text) (w w₁ : W) (e : Text) (r : Reply ℕ × W)
      → one a w ≡ (err e, w₁)
      → DialOutcome addrs w₁ r
      → DialOutcome (a ∷ addrs) w r
  after_failure a addrs w w₁ e (ok c, w') q (before, b, after, w₂, s, f, h) =
      (a ∷ before, b, after, w₂, ap (λ as'. a ∷ as') s, next_address q f, h)
  after_failure a addrs w w₁ e (err e', w') q f = next_address q f

  dial_rest-DialOutcome :
      (a : Text) (addrs : List Text) (w : W) (r : Reply ℕ × W)
      → one a w ≡ r
      → ((e : Text) (w' : W) → DialOutcome addrs w' (dial_each one e addrs w'))
      → DialOutcome
          (a ∷ addrs)
          w
          (elim r.0 [ ok c ↦ (ok c, r.1) | err e ↦ dial_each one e addrs r.1 ])
  dial_rest-DialOutcome a addrs w (ok c, w') q ih = ([], a, addrs, w, refl, no_address, q)
  dial_rest-DialOutcome a addrs w (err e, w') q ih =
      after_failure a addrs w w' e (dial_each one e addrs w') q (ih e w')

  dial_each-DialOutcome :
      (last_err : Text) (addrs : List Text) (w : W)
      → DialOutcome addrs w (dial_each one last_err addrs w)
  unfolding dial_each
  dial_each-DialOutcome last_err [] w = no_address
  dial_each-DialOutcome last_err (a ∷ addrs) w =
      dial_rest-DialOutcome a addrs w (one a w) refl (λ e w'. dial_each-DialOutcome e addrs w')

  DialOutcome-failed :
      (what : Text) (addrs : List Text) (w w' : W) (r : Reply ℕ)
      → DialOutcome addrs w (r, w')
      → DialOutcome addrs w (failed what r, w')
  DialOutcome-failed what addrs w w' (ok c) h = h
  DialOutcome-failed what addrs w w' (err e) h = h

module _ {W : Type 0} (n : Net W) (cfg : SshConfig) (address host port a : Text)
    (addrs : List Text) where
  -- If the host of an address has addresses of its own, these are tried in turn: the connection is
  -- the first that can be opened and shaken hands on, after those before it have failed, and there is
  -- an error only if all fail.
  pub dial_ssh_outcome :
      (w : W)
      → n.split_host_port address ≡ some (host, port)
      → n.lookup_host host w ≡ some (a ∷ addrs)
      → DialOutcome (dial_one n address cfg port) (a ∷ addrs) w (dial_ssh n address cfg w)
  unfolding dial_ssh
  dial_ssh_outcome w s l =
      let one = dial_one n address cfg port in
      let r = dial_each one [] (a ∷ addrs) w in
      subst (λ o. DialOutcome one (a ∷ addrs) w (dial_parts n address cfg o w)) (sym s)
        (subst (λ o. DialOutcome one (a ∷ addrs) w (dial_addresses n address cfg host port o w))
          (sym l)
          (DialOutcome-failed one (codes "all addresses failed for " ++ (host ++ codes ": "))
            (a ∷ addrs) w r.1 r.0 (dial_each-DialOutcome one [] (a ∷ addrs) w)))

module _ {W : Type 0} (n : Net W) (stop : ℕ) (c : Client) where
  -- The client once a connection is there.
  abbrev pub up : ℕ → Client
  up conn = record c {
    client = some conn;
    connected = true;
    last_err = none;
    stop_keepalive = some stop;
  }

  -- What Connect does, given the answer of the host to `echo $HOME`. If it fails, the connection is
  -- closed, and the client still says that it is connected.
  abbrev pub HomeOutcome : ℕ → (Text × Option Text) × W → Option Text × (Client × W) → Type 0
  HomeOutcome conn ((out, none), w) (r, (c', w')) =
      (r ≡ none) × (c' ≡ record (up conn) { home_dir = trim_space out }) × (w' ≡ w)
  HomeOutcome conn ((out, some e), w) (r, (c', w')) =
      (r ≡ some (codes "resolve remote home: " ++ e)) × (c' ≡ up conn) × (w' ≡ (n.close conn w).1)

  -- What it does, given what dialling returns: a failure leaves the client as it was, and over a
  -- connection the host is asked for its home.
  abbrev pub ConnectOutcome : Reply ℕ × W → Option Text × (Client × W) → Type 0
  ConnectOutcome (err e, w) (r, (c', w')) =
      (r ≡ some (codes "ssh dial: " ++ e)) × (c' ≡ c) × (w' ≡ w)
  ConnectOutcome (ok conn, w) r =
      HomeOutcome conn (run_command n (up conn) (codes "echo $HOME") w) r
