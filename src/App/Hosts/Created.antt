-- ===== src/App/Hosts/Created.antt =====
-- app/bindings.go: what CreateHost leaves of the hosts, whether or not the keychain takes the secret.
use claude_squad_ide.Base.{
  ◌≡◌, refl, sym, ap, subst, fun_ext, ◌∙◌, false, List, [], ◌∷◌, Option, none, some, Text, codes,
  text_eq, text_eq_iff, is_empty, ◌++◌, if_intro, if_true, if_false, Bool-cases, inl, inr, arith,
  if◌then◌else◌,
}
use claude_squad_ide.Session.Instance.World.{Reply, ok, err}
use claude_squad_ide.Ssh.Hosts
use claude_squad_ide.Ssh.Hosts.{
  HostConfig, HostStore, load_all, contents_of, with_hosts, save_locked, write_hosts,
}
use claude_squad_ide.Ssh.Hosts.Table.{
  Table, table, promised, saving, deleting, IsReliable, entry, changed, table-entry,
}
use claude_squad_ide.App.Hosts.{
  CreateHostOptions, HostDesk, config_of, create_host, host_saved, secret_kept,
}

-- A store that can be relied on and that never fails to write, and a keychain beside its file.
pub record IsSteady {W D : Type 0} (d : HostDesk W D) : Type 0 where
  pub reliable : IsReliable d.store
  pub writes : (t : D) (w : W) → (d.store.write_file t w).0 ≡ none
  pub secret_beside :
      (id secret : Text) (w : W)
      → d.store.read_file (d.set_secret id secret w).1 ≡ d.store.read_file w
  pub uuid_beside : (w : W) → d.store.read_file (d.generate_uuid w).1 ≡ d.store.read_file w

promised-saving_other :
    (h : HostConfig) (j : Text) (o : Option HostConfig)
    → text_eq h.id j ≡ false
    → promised (saving h) (λ i. o) j ≡ o
promised-saving_other h j none n = if_false (text_eq h.id j) _ _ n
promised-saving_other h j (some k) n = refl

-- A saved host of a new identifier that is deleted again leaves the table.
deleting-saving :
    (h : HostConfig) (t : Table)
    → t h.id ≡ none
    → promised (deleting h.id) (promised (saving h) t) ≡ t
deleting-saving h t n = fun_ext (λ j. elim (Bool-cases (text_eq h.id j)) [
  | inl e ↦ if_true (text_eq h.id j) none _ e ∙ sym n ∙ ap t ((text_eq_iff h.id j).0 e)
  | inr f ↦ if_false (text_eq h.id j) none _ f ∙ promised-saving_other h j (t j) f
])

module _ {W D : Type 0} (d : HostDesk W D) (k : IsSteady d) where
  -- What the keychain answers for a new host that has been saved; without a secret it is not asked.
  abbrev pub keychain_answer : Text → CreateHostOptions → W → Option Text × W
  keychain_answer id opts w =
      let w' = (Hosts.save d.store (config_of id opts) w).1 in
      if is_empty opts.secret then (none, w') else d.set_secret id opts.secret w'

  -- What CreateHost answers and leaves of the table that was there, by that answer of the keychain:
  -- the new host added and nothing done after the secret was stored, or the error and the table itself.
  abbrev pub CreateOutcome :
      Table → Text → CreateHostOptions → Option Text × W → Reply HostConfig × W → Type 0
  CreateOutcome t id opts (none, w) (r, w') =
      (r ≡ ok (config_of id opts))
      × (w' ≡ w)
      × (table d.store w' ≡ promised (saving (config_of id opts)) t)
  CreateOutcome t id opts (some e, w) (r, w') =
      (r ≡ err (codes "store secret: " ++ e)) × (table d.store w' ≡ t)

  save-none :
      (h : HostConfig) (hs : List HostConfig) (w : W)
      → load_all d.store w ≡ ok hs
      → (Hosts.save d.store h w).0 ≡ none
  unfolding Hosts.save
  save-none h hs w e =
      let (t, m, u) = k.reliable.marshals (hs ++ h ∷ []) in
      ap (λ r. (with_hosts r (λ l. save_locked d.store (l ++ h ∷ [])) w).0) e
      ∙ ap (λ r. (write_hosts d.store r w).0) m
      ∙ k.writes t w

  host_saved-none :
      (id : Text) (opts : CreateHostOptions) (r : Option Text × W)
      → r.0 ≡ none
      → host_saved d id opts r
        ≡ secret_kept d id opts
            (if is_empty opts.secret then (none, r.1) else d.set_secret id opts.secret r.1)
  host_saved-none id opts (none, w) e = refl
  host_saved-none id opts (some x, w) e = absurd (ground (arith, e))

  secret_kept-CreateOutcome :
      (id : Text) (opts : CreateHostOptions) (q : Option Text × W) (hs hs' : List HostConfig)
      → load_all d.store q.1 ≡ ok hs'
      → entry hs' ≡ promised (saving (config_of id opts)) (entry hs)
      → entry hs id ≡ none
      → CreateOutcome (entry hs) id opts q (secret_kept d id opts q)
  secret_kept-CreateOutcome id opts (none, w) hs hs' l e n =
      (refl, refl, table-entry d.store k.reliable hs' w l ∙ e)
  secret_kept-CreateOutcome id opts (some x, w) hs hs' l e n =
      let (hs'', l', e') = changed d.store k.reliable (deleting id) hs' w l in
      (
        refl,
        table-entry d.store k.reliable hs'' _ l'
            ∙ e'
            ∙ ap (promised (deleting id)) e
            ∙ deleting-saving (config_of id opts) (entry hs) n,
      )

  -- If files and JSON can be relied on, the keychain and the new identifier leave the file of hosts
  -- alone, the file can be read and the identifier is not in use, then CreateHost succeeds and leaves
  -- the table with the new host added, and the secret, if there is one, stored, if the keychain takes
  -- it; and if not, it returns the keychain's error and leaves the table as it was.
  pub create_host-CreateOutcome :
      (opts : CreateHostOptions) (hs : List HostConfig) (w : W)
      → load_all d.store w ≡ ok hs
      → table d.store w (d.generate_uuid w).0 ≡ none
      → CreateOutcome
          (table d.store w)
          (d.generate_uuid w).0
          opts
          (keychain_answer (d.generate_uuid w).0 opts (d.generate_uuid w).1)
          (create_host d opts w)
  unfolding create_host
  create_host-CreateOutcome opts hs w e n =
      let (id, w₀) = d.generate_uuid w in
      let h = config_of id opts in
      let same = table-entry d.store k.reliable hs w e in
      let e₀ : load_all d.store w₀ ≡ ok hs = ap (contents_of d.store) (k.uuid_beside w) ∙ e in
      let w₁ = (Hosts.save d.store h w₀).1 in
      let (hs', l, f) = changed d.store k.reliable (saving h) hs w₀ e₀ in
      let q = if is_empty opts.secret then (none, w₁) else d.set_secret id opts.secret w₁ in
      let l' : load_all d.store q.1 ≡ ok hs' =
        if_intro (λ (q : Option Text × W). load_all d.store q.1 ≡ ok hs') (is_empty opts.secret) _ _
          (λ _. l) (λ _. ap (contents_of d.store) (k.secret_beside id opts.secret w₁) ∙ l) in
      subst (λ r. CreateOutcome (table d.store w) id opts q r)
        (sym (host_saved-none id opts (Hosts.save d.store h w₀) (save-none h hs w₀ e₀)))
        (subst (λ t. CreateOutcome t id opts q (secret_kept d id opts q)) (sym same)
          (secret_kept-CreateOutcome id opts q hs hs' l' f (sym (ap (λ t. t id) same) ∙ n)))
