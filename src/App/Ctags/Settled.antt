-- ===== src/App/Ctags/Settled.antt =====
-- app/indexer.go: what a build leaves, and that the next one finds nothing to do.
use claude_squad_ide.Base.{
  ◌≡◌, refl, ap, ◌∙◌, Bool, true, false, List, [], ◌∷◌, Option, Text, Assoc, Bool-cases, inl, inr,
  text_eq, text_eq_iff, arith,
}
use claude_squad_ide.App.Ctags.{
  Definition, SessionIndexer, Cancelled, never, early, late, build, files_changed, listing_of,
  same_files, elements,
}

same_files_refl : (fs : List Text) → same_files fs fs ≡ true
same_files_refl [] = refl
same_files_refl (f ∷ fs) = rw ((text_eq_iff f f).1 refl) (same_files_refl fs)

same_files-equal : (fs gs : List Text) → same_files fs gs ≡ true → fs ≡ gs
same_files-equal [] [] e = refl
same_files-equal [] (g ∷ gs) e = ground (arith, e)
same_files-equal (f ∷ fs) [] e = ground (arith, e)
same_files-equal (f ∷ fs) (g ∷ gs) e = elim (Bool-cases (text_eq f g)) [
  | inr differs ↦ ground (arith, e, differs)
  | inl same ↦
      ap (λ h. h ∷ fs) ((text_eq_iff f g).0 same)
      ∙ ap (λ hs. g ∷ hs) (same_files-equal fs gs (ground (arith, e, same)))
]

module _ (ctags : Option (List Text) → Assoc (List Definition))
    (listing : Option (Option (List Text))) where
  build-skipped :
      (c : Cancelled) (x : SessionIndexer)
      → same_files (elements x.files) (elements (listing_of listing)) ≡ true
      → build ctags listing c false x ≡ x
  unfolding build files_changed
  build-skipped never x same = rw same refl
  build-skipped early x same = refl
  build-skipped late x same = rw same refl

  build-files :
      (force : Bool) (x : SessionIndexer)
      → elements (build ctags listing never force x).files ≡ elements (listing_of listing)
  unfolding build files_changed
  build-files true x = refl
  build-files false x =
      elim (Bool-cases (same_files (elements x.files) (elements (listing_of listing)))) [
        | inl same ↦ rw same (same_files-equal _ _ same)
        | inr differs ↦ rw differs refl
      ]

  -- A build that is not cancelled leaves the files that git lists, whether or not it is forced, and an
  -- unforced build right after it, with the same list, changes nothing, cancelled or not.
  pub build-settles :
      (force : Bool) (c : Cancelled) (x : SessionIndexer)
      → elements (build ctags listing never force x).files ≡ elements (listing_of listing)
        × build ctags listing c false (build ctags listing never force x)
          ≡ build ctags listing never force x
  build-settles force c x =
      let same = build-files force x in
      (
        same,
        build-skipped c _ (
            ap (λ fs. same_files fs (elements (listing_of listing))) same
            ∙ same_files_refl (elements (listing_of listing))),
      )
