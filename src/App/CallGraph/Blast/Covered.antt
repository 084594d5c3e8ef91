-- ===== src/App/CallGraph/Blast/Covered.antt =====
-- app/indexer_callgraph.go, GetBlastRadius: what is known at each point of the search is waiting or done.
use claude_squad_ide.Base.{
  ℕ, zero, suc, ◌≤◌, ◌≡◌, sym, ap, subst, ◌∙◌, ◌⊎◌, inl, inr, true, false, ◌&&◌, List, [], ◌∷◌,
  ◌++◌, some, Text, lookup, insert, lookup-insert, lookup-insert_self, is_empty, text_eq,
  text_eq_iff, ltb, ◌==◌, arith, Bool-cases, if_intro, if_true, if_false, le→leb,
}
use claude_squad_ide.App.CallGraph.{Reference, CallGraph, refs_at}
use claude_squad_ide.App.CallGraph.Floats.{Floats}
use claude_squad_ide.App.CallGraph.Blast.{Search, Queue, seen_by, reach, visit, visit_all, search}
use claude_squad_ide.App.CallGraph.Blast.Listed.{
  any-append_left, any-append_right, has_caller, queued, is_listed, seen_below, some_injective,
  or_else_search,
}

module _ {F : Type 0} (fl : Floats F) (g : CallGraph) (root : Text) (limit : ℕ) where
  abbrev pub Seen : Search F → Text → ℕ → Type 0
  Seen s c d = seen_by d (lookup c s.visited) ≡ true

  abbrev pub Known : Search F → Text → ℕ → Type 0
  Known s v d = (v ≡ root) × (d ≡ 0) ⊎ (lookup v s.visited ≡ some d)

  -- All callers of a symbol were seen one level further.
  abbrev pub IsDone : Search F → Text → ℕ → Type 0
  IsDone s v d =
      (c : Text)
      → is_empty c ≡ false
      → has_caller c (refs_at v g.callers) ≡ true
      → suc d ≤ limit
      → Seen s c (suc d)

  abbrev pub IsListed : Search F → Type 0
  IsListed s = (c : Text) (d : ℕ) → lookup c s.visited ≡ some d → is_listed c d s.dependents ≡ true

  -- What is known waits in the queue, is done, or is what the round is about.
  abbrev pub IsCovered : (Text → ℕ → Type 0) → Queue × Search F → Type 0
  IsCovered P (q, s) =
      ((v : Text) (d : ℕ) → Known s v d → (queued v d q ≡ true) ⊎ (IsDone s v d ⊎ P v d))
      × IsListed s

  abbrev Later : Search F → Search F → Type 0
  Later s t = (c : Text) (d : ℕ) → Seen s c d → Seen t c d

  kept_afterwards :
      (P : Text → ℕ → Type 0) (q q' : Queue) (s t : Search F) (v : Text) (d : ℕ)
      → Later s t
      → (queued v d q ≡ true) ⊎ (IsDone s v d ⊎ P v d)
      → (queued v d (q ++ q') ≡ true) ⊎ (IsDone t v d ⊎ P v d)
  kept_afterwards P q q' s t v d l (inl h) = inl (any-append_left _ q q' h)
  kept_afterwards P q q' s t v d l (inr (inl h)) = inr (inl (λ c n m k. l c (suc d) (h c n m k)))
  kept_afterwards P q q' s t v d l (inr (inr h)) = inr (inr h)

  -- One caller that is not seen yet.
  lookup-reach :
      (depth : ℕ) (r : Reference) (s : Search F) (c : Text) (d : ℕ)
      → lookup c (insert r.caller depth s.visited) ≡ some d
      → ((r.caller ≡ c) × (depth ≡ d)) ⊎ (lookup c s.visited ≡ some d)
  lookup-reach depth r s c d h = elim (Bool-cases (text_eq r.caller c)) [
    | inl e ↦ inl (
      (text_eq_iff r.caller c).0 e,
      some_injective depth d
          (sym (if_true _ _ _ e) ∙ sym (lookup-insert r.caller c depth s.visited) ∙ h),
    )
    | inr e ↦ inr (sym (if_false _ _ _ e) ∙ sym (lookup-insert r.caller c depth s.visited) ∙ h)
  ]

  reach-Later :
      (depth : ℕ) (r : Reference) (q : Queue) (s : Search F)
      → seen_by depth (lookup r.caller s.visited) ≡ false
      → Later s (reach fl depth r (q, s)).1
  reach-Later depth r q s e c d h =
      rw (lookup-insert r.caller c depth s.visited) (elim (Bool-cases (text_eq r.caller c)) [
        | inl same ↦ rw same (
            le→leb depth d (
              seen_below depth d (lookup c s.visited)
                (subst (λ k. seen_by depth (lookup k s.visited) ≡ false)
                  ((text_eq_iff r.caller c).0 same) e)
                h))
        | inr apart ↦ rw apart h
      ])

  reach-IsListed :
      (depth : ℕ) (r : Reference) (q : Queue) (s : Search F)
      → IsListed s
      → IsListed (reach fl depth r (q, s)).1
  reach-IsListed depth r q s v c d h = elim (lookup-reach depth r s c d h) [
    | inl same ↦
        any-append_right _ s.dependents _
          (ground (arith, same.1, (text_eq_iff r.caller c).1 same.0))
    | inr old ↦ any-append_left _ s.dependents _ (v c d old)
  ]

  reach-IsCovered :
      (P : Text → ℕ → Type 0) (depth : ℕ) (r : Reference) (q : Queue) (s : Search F)
      → seen_by depth (lookup r.caller s.visited) ≡ false
      → IsCovered P (q, s)
      → IsCovered P (reach fl depth r (q, s))
  reach-IsCovered P depth r q s e v = (known, reach-IsListed depth r q s v.1)
    where
      t : Search F
      t = (reach fl depth r (q, s)).1

      later :
          (c : Text) (d : ℕ)
          → Known s c d
          → (queued c d (q ++ (r.caller, depth) ∷ []) ≡ true) ⊎ (IsDone t c d ⊎ P c d)
      later c d h =
          kept_afterwards P q ((r.caller, depth) ∷ []) s t c d (reach-Later depth r q s e)
            (v.0 c d h)

      known :
          (c : Text) (d : ℕ)
          → Known t c d
          → (queued c d (q ++ (r.caller, depth) ∷ []) ≡ true) ⊎ (IsDone t c d ⊎ P c d)
      known c d (inl h) = later c d (inl h)
      known c d (inr h) = elim (lookup-reach depth r s c d h) [
        | inl same ↦
            inl (any-append_right _ q _ (ground (arith, same.1, (text_eq_iff r.caller c).1 same.0)))
        | inr old ↦ later c d (inr old)
      ]

  visit-IsCovered :
      (P : Text → ℕ → Type 0) (depth : ℕ) (r : Reference) (s : Queue × Search F)
      → IsCovered P s
      → IsCovered P (visit fl limit depth r s)
        × Later s.1 (visit fl limit depth r s).1
        × (is_empty r.caller ≡ false
            → depth ≤ limit
            → Seen (visit fl limit depth r s).1 r.caller depth)
  unfolding visit
  visit-IsCovered P depth r (q, s) v =
      let after = λ (x : Queue × Search F).
        IsCovered P x
        × Later s x.1
        × (is_empty r.caller ≡ false → depth ≤ limit → Seen x.1 r.caller depth) in
      if_intro after (is_empty r.caller) _ _
        (λ e. (v, λ c d h. h, λ n. absurd (ground (arith, e, n))))
        λ _.
          if_intro after (ltb limit depth) _ _
            (λ e. (v, λ c d h. h, λ n k. absurd (ground (arith, e, k))))
            λ _.
              if_intro after (seen_by depth (lookup r.caller s.visited)) _ _
                (λ e. (v, λ c d h. h, λ n k. e))
                (λ e. (
                  reach-IsCovered P depth r q s e v,
                  reach-Later depth r q s e,
                  λ n k.
                      rw (lookup-insert_self r.caller depth s.visited)
                        (le→leb depth depth (omega arith)),
                ))

  visit_all-IsCovered :
      (P : Text → ℕ → Type 0) (depth : ℕ) (rs : List Reference) (s : Queue × Search F)
      → IsCovered P s
      → IsCovered P (visit_all fl limit depth rs s)
        × Later s.1 (visit_all fl limit depth rs s).1
        × ((c : Text)
            → is_empty c ≡ false
            → has_caller c rs ≡ true
            → depth ≤ limit
            → Seen (visit_all fl limit depth rs s).1 c depth)
  unfolding visit_all
  visit_all-IsCovered P depth [] s v = (v, λ c d h. h, λ c n h. absurd (ground (arith, h)))
  visit_all-IsCovered P depth (r ∷ rs) s v =
      let one = visit-IsCovered P depth r s v in
      let ih = visit_all-IsCovered P depth rs (visit fl limit depth r s) one.0 in
      (
        ih.0,
        λ c d h. ih.1 c d (one.1 c d h),
        λ c n h k. elim (Bool-cases (text_eq r.caller c)) [
          | inl e ↦
              let same = (text_eq_iff r.caller c).0 e in
              ih.1 c depth (
                subst (λ x. Seen (visit fl limit depth r s).1 x depth) same
                  (one.2 (subst (λ x. is_empty x ≡ false) (sym same) n) k))
          | inr e ↦ ih.2 c n (ground (arith, h, e)) k
        ],
      )

  abbrev pub Nothing : Text → ℕ → Type 0
  Nothing v d = false ≡ true

  -- Taking an element off the queue makes it what the round is about.
  popped-IsCovered :
      (k : Text) (e : ℕ) (q : Queue) (s : Search F)
      → IsCovered Nothing ((k, e) ∷ q, s)
      → IsCovered (λ v d. (k ≡ v) × (e ≡ d)) (q, s)
  popped-IsCovered k e q s v = (λ c d h. popped c d (v.0 c d h), v.1)
    where
      popped :
          (c : Text) (d : ℕ)
          → (queued c d ((k, e) ∷ q) ≡ true) ⊎ (IsDone s c d ⊎ Nothing c d)
          → (queued c d q ≡ true) ⊎ (IsDone s c d ⊎ ((k ≡ c) × (e ≡ d)))
      popped c d (inr (inl h)) = inr (inl h)
      popped c d (inr (inr h)) = cc
      popped c d (inl h) = elim (Bool-cases (text_eq k c && e == d)) [
        | inl same ↦ inr (inr ((text_eq_iff k c).0 (ground (arith, same)), ground (arith, same)))
        | inr apart ↦ inl (ground (arith, h, apart))
      ]

  round-IsCovered :
      (k : Text) (e : ℕ) (q : Queue) (s : Search F)
      → IsCovered Nothing ((k, e) ∷ q, s)
      → IsCovered Nothing (visit_all fl limit (suc e) (refs_at k g.callers) (q, s))
  round-IsCovered k e q s v =
      let r =
        visit_all-IsCovered (λ v d. (k ≡ v) × (e ≡ d)) (suc e) (refs_at k g.callers) (q, s)
          (popped-IsCovered k e q s v) in
      (λ c d h. finished c d (r.0.0 c d h), r.0.1)
    where
      after : Queue × Search F
      after = visit_all fl limit (suc e) (refs_at k g.callers) (q, s)

      finished :
          (c : Text) (d : ℕ)
          → (queued c d after.0 ≡ true) ⊎ (IsDone after.1 c d ⊎ ((k ≡ c) × (e ≡ d)))
          → (queued c d after.0 ≡ true) ⊎ (IsDone after.1 c d ⊎ Nothing c d)
      finished c d (inl h) = inl h
      finished c d (inr (inl h)) = inr (inl h)
      finished c d (inr (inr h)) = inr (
          inl (
            subst (λ x. IsDone after.1 x d) h.0
              (subst (λ m. IsDone after.1 k m) h.1
                (visit_all-IsCovered (λ v d. (k ≡ v) × (e ≡ d)) (suc e) (refs_at k g.callers) (q, s)
                  (popped-IsCovered k e q s v)).2)))

  pub search-IsCovered :
      (n : ℕ) (s : Queue × Search F) (t : Search F)
      → search fl n g limit s ≡ some t
      → IsCovered Nothing s
      → IsCovered Nothing ([], t)
  unfolding search
  search-IsCovered n ([], s) t h v =
      subst (λ x. IsCovered Nothing ([], x)) (ap (or_else_search s) h) v
  search-IsCovered zero (c ∷ q, s) t h v = cc
  search-IsCovered (suc n) (c ∷ q, s) t h v =
      search-IsCovered n (visit_all fl limit (suc c.1) (refs_at c.0 g.callers) (q, s)) t h
        (round-IsCovered c.0 c.1 q s v)
