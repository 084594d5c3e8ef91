-- ===== src/Ssh/Hosts/Table.antt =====
-- ssh/hosts.go: the file of hosts as a table by identifier.
use claude_squad_ide.Base.{
  ◌≡◌, refl, sym, ap, subst, fun_ext, ◌∙◌, true, false, not, List, [], ◌∷◌, ◌++◌, Option, none,
  some, Text, text_eq, text_eq_iff, keep, find, is_some, if_intro, arith, if◌then◌else◌,
}
use claude_squad_ide.Session.Instance.World.{Reply, ok, err}
use claude_squad_ide.Ssh.Hosts.{
  HostConfig, HostStore, bytes, load_all, save_locked, save, update, delete_host, get_by_id,
  replaced, found_or, host_in, save_replaced, with_hosts,
}

-- A table gives the host of an identifier, if any.
abbrev pub Table : Type 0
Table = Text → Option HostConfig

pub data Change : Type 0 where
  saving : HostConfig → Change
  updating : HostConfig → Change
  deleting : Text → Change

-- What a change promises: a saved host does not take the place of one that is there.
abbrev pub promised : Change → Table → Table
promised (saving h) t j = elim (t j) [
  | none ↦ (if text_eq h.id j then some h else none)
  | some k ↦ some k
]
promised (updating h) t j =
    if is_some (t h.id) then (if text_eq h.id j then some h else t j) else t j
promised (deleting id) t j = if text_eq id j then none else t j

abbrev pub promised_all : List Change → Table → Table
promised_all [] t = t
promised_all (c ∷ cs) t = promised_all cs (promised c t)

abbrev pub change : {W D : Type 0} → HostStore W D → Change → W → Option Text × W
change s (saving h) w = save s h w
change s (updating h) w = update s h w
change s (deleting id) w = delete_host s id w

abbrev pub change_all : {W D : Type 0} → HostStore W D → List Change → W → W
change_all s [] w = w
change_all s (c ∷ cs) w = change_all s cs (change s c w).1

abbrev pub answer : Reply HostConfig → Option HostConfig
answer (ok h) = some h
answer (err e) = none

-- The table that GetByID reads.
abbrev pub table : {W D : Type 0} → HostStore W D → W → Table
table s w j = answer (get_by_id s j w)

-- Files can be written and read back, and so can JSON.
pub record IsReliable {W D : Type 0} (s : HostStore W D) : Type 0 where
  pub reads_back : (t : D) (w : W) → s.read_file (s.write_file t w).1 ≡ bytes t
  pub marshals : (hs : List HostConfig) → (t : D) × (s.marshal hs ≡ ok t) × (s.unmarshal t ≡ ok hs)

abbrev pub entry : List HostConfig → Table
entry hs j = find (λ h. text_eq h.id j) hs

entry-append :
    (hs : List HostConfig) (h : HostConfig) (j : Text)
    → entry (hs ++ h ∷ []) j ≡ promised (saving h) (entry hs) j
entry-append [] h j = refl
entry-append (k ∷ hs) h j = ground (arith, entry-append hs h j)

entry-keep :
    (hs : List HostConfig) (id j : Text)
    → entry (keep (λ h. not (text_eq h.id id)) hs) j ≡ promised (deleting id) (entry hs) j
entry-keep [] id j = ground arith
entry-keep (k ∷ hs) id j =
    ground (arith, entry-keep hs id j, text_eq_iff k.id id, text_eq_iff k.id j, text_eq_iff id j)

abbrev EntryOr : HostConfig → List HostConfig → Option (List HostConfig) → Type 0
EntryOr h hs none = entry hs h.id ≡ none
EntryOr h hs (some hs') =
    (is_some (entry hs h.id) ≡ true)
    × ((j : Text) → entry hs' j ≡ (if text_eq h.id j then some h else entry hs j))

replaced_below :
    (h k : HostConfig) (hs : List HostConfig) (o : Option (List HostConfig))
    → text_eq k.id h.id ≡ false
    → EntryOr h hs o
    → EntryOr h (k ∷ hs) (elim o [ none ↦ none | some hs' ↦ some (k ∷ hs') ])
replaced_below h k hs none n e = ground (arith, n, e)
replaced_below h k hs (some hs') n (i, e) = (
  ground (arith, n, i),
  λ j. ground (arith, n, e j, text_eq_iff k.id j, text_eq_iff h.id j, text_eq_iff k.id h.id),
)

entry-replaced : (h : HostConfig) (hs : List HostConfig) → EntryOr h hs (replaced h hs)
unfolding replaced
entry-replaced h [] = refl
entry-replaced h (k ∷ hs) =
    if_intro (EntryOr h (k ∷ hs)) (text_eq k.id h.id) _ _
      (λ e. (
        ground (arith, e),
        λ j. ground (arith, e, text_eq_iff k.id j, text_eq_iff h.id j, text_eq_iff k.id h.id),
      ))
      (λ n. replaced_below h k hs (replaced h hs) n (entry-replaced h hs))

answer-found_or : (j : Text) (o : Option HostConfig) → answer (found_or j o) ≡ o
answer-found_or j none = refl
answer-found_or j (some h) = refl

module _ {W D : Type 0} (s : HostStore W D) (reliable : IsReliable s) where
  pub table-entry : (hs : List HostConfig) (w : W) → load_all s w ≡ ok hs → table s w ≡ entry hs
  unfolding get_by_id
  table-entry hs w e =
      fun_ext (λ j. ap (λ r. answer (host_in j r)) e ∙ answer-found_or j (entry hs j))

  load-save_locked : (hs : List HostConfig) (w : W) → load_all s (save_locked s hs w).1 ≡ ok hs
  load-save_locked hs w = let (t, m, u) = reliable.marshals hs in rw (m, reliable.reads_back t w, u)

  -- What a change leaves in the file.
  abbrev pub IsChanged : Change → List HostConfig → W → Type 0
  IsChanged c hs w =
      (hs' : List HostConfig) × (load_all s w ≡ ok hs') × (entry hs' ≡ promised c (entry hs))

  updated :
      (h : HostConfig) (hs : List HostConfig) (o : Option (List HostConfig)) (w : W)
      → load_all s w ≡ ok hs
      → EntryOr h hs o
      → IsChanged (updating h) hs (save_replaced s h o w).1
  updated h hs none w e n = (hs, e, fun_ext (λ j. ground (arith, n)))
  updated h hs (some hs') w e (i, f) =
      (hs', load-save_locked hs' w, fun_ext (λ j. ground (arith, i, f j)))

  pub changed :
      (c : Change) (hs : List HostConfig) (w : W)
      → load_all s w ≡ ok hs
      → IsChanged c hs (change s c w).1
  unfolding save update delete_host
  changed (saving h) hs w e =
      subst (λ r. IsChanged (saving h) hs (with_hosts r (λ l. save_locked s (l ++ h ∷ [])) w).1)
        (sym e) (hs ++ h ∷ [], load-save_locked _ w, fun_ext (entry-append hs h))
  changed (updating h) hs w e =
      subst
        (λ r. IsChanged (updating h) hs (with_hosts r (λ l. save_replaced s h (replaced h l)) w).1)
        (sym e) (updated h hs (replaced h hs) w e (entry-replaced h hs))
  changed (deleting id) hs w e =
      subst
        (λ r.
          IsChanged (deleting id) hs
            (with_hosts r (λ l. save_locked s (keep (λ h. not (text_eq h.id id)) l)) w).1)
        (sym e)
        (keep (λ h. not (text_eq h.id id)) hs, load-save_locked _ w, fun_ext (entry-keep hs id))

  all_changed :
      (cs : List Change) (hs : List HostConfig) (w : W)
      → load_all s w ≡ ok hs
      → table s (change_all s cs w) ≡ promised_all cs (entry hs)
  all_changed [] hs w e = table-entry hs w e
  all_changed (c ∷ cs) hs w e =
      let (hs', e', f) = changed c hs w e in all_changed cs hs' _ e' ∙ ap (promised_all cs) f

  -- If the file can be read at first, and files and JSON that are written can be read back, then
  -- any run of Save, Update and Delete leaves GetByID with the table that they promise: Update
  -- changes a host that is there, Delete removes all of the identifier, and Save adds a host but
  -- never takes the place of one that is there.
  pub change_all-promised :
      (cs : List Change) (hs : List HostConfig) (w : W)
      → load_all s w ≡ ok hs
      → table s (change_all s cs w) ≡ promised_all cs (table s w)
  change_all-promised cs hs w e =
      all_changed cs hs w e ∙ ap (promised_all cs) (sym (table-entry hs w e))
