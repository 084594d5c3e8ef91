-- ===== src/Session/Storage/Edits.antt =====
-- session/storage.go: what is stored after a save, a deletion and an update.
use claude_squad_ide.Base.{
  ℕ, ◌≡◌, refl, ap, Bool, true, false, not, List, [], ◌∷◌, none, some, Text, keep, any, map,
  text_eq, text_eq_iff, arith, Bool-cases, inl, inr,
}
use claude_squad_ide.Session.Instance.{Instance}
use claude_squad_ide.Session.Storage.{
  InstanceData, Store, instance_not_found, load_instances_data, save_instances_data,
  delete_instance, update_instance, replace_first, to_instance_data,
}

-- What is documented of encoding/json and of the state file: what was encoded is decoded again, and
-- what was saved is what is stored.
pub record IsKept {W J : Type 0} (st : Store W J) : Type 0 where
  pub decodes : (ds : List InstanceData) (t : J) → st.marshal ds ≡ some t → st.unmarshal t ≡ some ds
  pub stores : (t : J) (w w' : W) → st.save_instances t w ≡ (none, w') → st.get_instances w' ≡ t

-- The data can be encoded and saved, which leads from one world to another.
pub record Writes {W J : Type 0} (st : Store W J) (ds : List InstanceData) (w w' : W) : Type 0 where
  pub text : J
  pub encodes : st.marshal ds ≡ some text
  pub saves : st.save_instances text w ≡ (none, w')

abbrev pub with_title : Text → InstanceData → Bool
with_title title d = text_eq d.title title

none-left :
    (title : Text) (ds : List InstanceData)
    → any (with_title title) (keep (λ d. not (text_eq d.title title)) ds) ≡ false
none-left title [] = refl
none-left title (d ∷ ds) = ground (arith, none-left title ds)

titles-replace_first :
    (d : InstanceData) (ds : List InstanceData)
    → map (λ e. e.title) (replace_first d ds) ≡ map (λ e. e.title) ds
titles-replace_first d [] = refl
titles-replace_first d (e ∷ es) = elim (Bool-cases (text_eq e.title d.title)) [
  | inl h ↦ rw (h, (text_eq_iff e.title d.title).0 h) refl
  | inr h ↦ rw h (ap (λ ts. e.title ∷ ts) (titles-replace_first d es))
]

module _ {W J : Type 0} (st : Store W J) (kept : IsKept st) where
  pub load-save :
      (ds : List InstanceData) (w w' : W)
      → Writes st ds w w'
      → (save_instances_data st ds w ≡ (none, w')) × (load_instances_data st w' ≡ some ds)
  unfolding save_instances_data load_instances_data
  load-save ds w w' p = (
    rw (p.encodes, p.saves) refl,
    rw (load_instances_data, kept.stores p.text w w' p.saves) (kept.decodes ds p.text p.encodes),
  )

  -- If a stored instance has the title and the rest can be written, DeleteInstance succeeds, the
  -- instances of other titles are stored then, in order, and a second deletion does not find it.
  pub delete_instance-load :
      (title : Text) (ds : List InstanceData) (w w' : W)
      → load_instances_data st w ≡ some ds
      → any (with_title title) ds ≡ true
      → Writes st (keep (λ d. not (text_eq d.title title)) ds) w w'
      → (delete_instance st title w ≡ (none, w'))
        × (load_instances_data st w' ≡ some (keep (λ d. not (text_eq d.title title)) ds))
        × (delete_instance st title w' ≡ (some (instance_not_found title), w'))
  unfolding delete_instance
  delete_instance-load title ds w w' l h p =
      let r = load-save _ w w' p in (rw (l, h) r.0, r.1, rw (r.1, none-left title ds) refl)

  -- If a stored instance has the title of the given one and the changed list can be written,
  -- UpdateInstance succeeds, the first of that title is replaced by the instance's data, and the
  -- titles that are stored are the same as before.
  pub update_instance-load :
      (now : ℕ) (i : Instance) (ds : List InstanceData) (w w' : W)
      → load_instances_data st w ≡ some ds
      → any (with_title i.title) ds ≡ true
      → Writes st (replace_first (to_instance_data now i) ds) w w'
      → (update_instance st now i w ≡ (none, w'))
        × (load_instances_data st w' ≡ some (replace_first (to_instance_data now i) ds))
        × (map (λ e. e.title) (replace_first (to_instance_data now i) ds) ≡ map (λ e. e.title) ds)
  unfolding update_instance to_instance_data
  update_instance-load now i ds w w' l h p =
      let r = load-save _ w w' p in
      (rw (l, h) r.0, r.1, titles-replace_first (to_instance_data now i) ds)
