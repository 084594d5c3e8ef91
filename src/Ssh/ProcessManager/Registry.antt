-- ===== src/Ssh/ProcessManager/Registry.antt =====
-- ssh/process_manager.go: identifiers tell the hosts apart, so the registry finds the right manager.
use claude_squad_ide.Base.{
  ℕ, ◌≤◌, ◌≡◌, ◌≢◌, refl, sym, ap, ◌∙◌, Bool, true, false, List, [], ◌∷◌, ◌++◌, none, some, Text,
  codes, itoa, itoa-injective, itoa-no_dash, any, All, Assoc, lookup, text_eq, text_eq_iff, ◌==◌,
  arith, Bool-cases, inl, inr,
}
use claude_squad_ide.Ssh.Session.{SshSession}
use claude_squad_ide.Ssh.ProcessManager.{SshManager, ssh_id, get, registry_get}

abbrev has_dash : Text → Bool
has_dash = any (λ c. c == b'-')

has_dash-append : (s d : Text) → has_dash (s ++ b'-' ∷ d) ≡ true
has_dash-append [] d = refl
has_dash-append (c ∷ s) d = ground (arith, has_dash-append s d)

-- What stands before and behind the last dash is determined.
split_at_dash :
    (s t d e : Text)
    → has_dash d ≡ false
    → has_dash e ≡ false
    → s ++ b'-' ∷ d ≡ t ++ b'-' ∷ e
    → (s ≡ t) × (d ≡ e)
split_at_dash [] [] d e hd he q = (refl, cc)
split_at_dash [] (c ∷ t) d e hd he q =
    let r : d ≡ t ++ b'-' ∷ e = cc in
    absurd (ground (arith, sym hd ∙ ap has_dash r ∙ has_dash-append t e))
split_at_dash (c ∷ s) [] d e hd he q =
    let r : s ++ b'-' ∷ d ≡ e = cc in
    absurd (ground (arith, sym (has_dash-append s d) ∙ ap has_dash r ∙ he))
split_at_dash (b ∷ s) (c ∷ t) d e hd he q =
    let r = split_at_dash s t d e hd he (cc) in let h : b ≡ c = cc in (cc, r.1)

drop_prefix : (p s t : Text) → p ++ s ≡ p ++ t → s ≡ t
drop_prefix [] s t q = q
drop_prefix (c ∷ p) s t q = drop_prefix p s t (cc)

-- An identifier says which host gave it, and as which.
pub ssh_id-injective : (g h : Text) (n k : ℕ) → ssh_id g n ≡ ssh_id h k → (g ≡ h) × (n ≡ k)
unfolding ssh_id
ssh_id-injective g h n k q =
    let r =
      split_at_dash g h (itoa n) (itoa k) (itoa-no_dash n) (itoa-no_dash k)
        (drop_prefix (codes "ssh-") _ _ q) in
    (r.0, itoa-injective n k r.1)

-- Every session stands under an identifier of its host, up to a counter.
abbrev pub Named : Text → ℕ → Assoc SshSession → Type 0
Named host c [] = Unit {0}
Named host c ((k, s) ∷ m) = ((n : ℕ) × (n ≤ c) × (k ≡ ssh_id host n)) × Named host c m

abbrev pub IsNamed : {W : Type 0} → SshManager W → Type 0
IsNamed m = Named m.host_id m.counter m.sessions

lookup-other :
    (g h : Text) (c n : ℕ) (m : Assoc SshSession)
    → g ≢ h
    → Named g c m
    → lookup (ssh_id h n) m ≡ none
unfolding lookup
lookup-other g h c n [] d v = refl
lookup-other g h c n ((k, s) ∷ m) d v = ground (
  arith,
  v.0,
  text_eq_iff k (ssh_id h n),
  ssh_id-injective g h v.0.0 n,
  lookup-other g h c n m d v.1,
)

lookup-Named :
    (g id : Text) (c : ℕ) (s : SshSession) (m : Assoc SshSession)
    → Named g c m
    → lookup id m ≡ some s
    → (n : ℕ) × (n ≤ c) × (id ≡ ssh_id g n)
unfolding lookup
lookup-Named g id c s [] v e = absurd (ground (arith, e))
lookup-Named g id c s ((k, t) ∷ m) v e = elim (Bool-cases (text_eq k id)) [
  | inl same ↦ (v.0.0, v.0.1, sym ((text_eq_iff k id).0 same) ∙ v.0.2)
  | inr other ↦ lookup-Named g id c s m v.1 (sym (rw other refl) ∙ e)
]

module _ {W : Type 0} where
  registry_get-others :
      (h : Text) (n : ℕ) (ms rest : List (SshManager W))
      → All (λ m. IsNamed m × (m.host_id ≢ h)) ms
      → registry_get (ms ++ rest) (ssh_id h n) ≡ registry_get rest (ssh_id h n)
  unfolding registry_get
  registry_get-others h n [] rest v = refl
  registry_get-others h n (m ∷ ms) rest v =
      rw (lookup-other m.host_id h m.counter n m.sessions v.0.1 v.0.0, registry_get)
        (registry_get-others h n ms rest v.1)

  -- If managers of different hosts stand before the manager of a session, and all give their
  -- sessions identifiers of their own host, then the registry finds that session and no other one
  -- under its identifier, in whatever order it meets the managers.
  pub registry_get-finds :
      (id : Text) (s : SshSession) (m : SshManager W) (before after : List (SshManager W))
      → IsNamed m
      → All (λ n. IsNamed n × (n.host_id ≢ m.host_id)) before
      → get m id ≡ some s
      → registry_get (before ++ m ∷ after) id ≡ some s
  unfolding registry_get
  registry_get-finds id s m before after v others e =
      let r = lookup-Named m.host_id id m.counter s m.sessions v e in
      ap (registry_get (before ++ m ∷ after)) r.2
      ∙ registry_get-others m.host_id r.0 before (m ∷ after) others
      ∙ sym (ap (registry_get (m ∷ after)) r.2)
      ∙ rw (e, registry_get) refl
