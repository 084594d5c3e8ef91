-- ===== src/App/Files/Listing/Lines.antt =====
-- app/bindings.go: what `ls` prints of a folder is read back.
use claude_squad_ide.Base.{
  ◌≡◌, ◌≢◌, refl, sym, ap, ◌∙◌, Bool, true, false, not, List, [], ◌∷◌, ◌++◌, Text, codes, All,
  is_empty, map, keep, text_eq, text_eq_iff, Bool-cases, inl, inr, arith, if◌then◌else◌,
}
use claude_squad_ide.App.Files.Paths.{has_slash}
use claude_squad_ide.App.Files.Listing.{git_folder, ls_entries, ends_in_slash, trim_slash}

-- What `ls -1pA` prints of an entry.
abbrev pub ls_line : Text × Bool → Text
ls_line (n, b) = if b then n ++ codes "/" else n

has_suffix-append : (n : Text) → ends_in_slash (n ++ codes "/") ≡ true
has_suffix-append [] = refl
has_suffix-append (c ∷ n) = ground (arith, has_suffix-append n)

trim_slash-append : (n : Text) → trim_slash (n ++ codes "/") ≡ n
trim_slash-append [] = refl
trim_slash-append (c ∷ []) = refl
trim_slash-append (c ∷ e ∷ n) = ap (λ t. c ∷ t) (trim_slash-append (e ∷ n))

trim_slash-name : (n : Text) → has_slash n ≡ false → trim_slash n ≡ n
trim_slash-name [] h = refl
trim_slash-name (c ∷ []) h = ground (arith, h)
trim_slash-name (c ∷ e ∷ n) h = ap (λ t. c ∷ t) (trim_slash-name (e ∷ n) (ground (arith, h)))

ends_in_slash-name : (n : Text) → has_slash n ≡ false → ends_in_slash n ≡ false
ends_in_slash-name [] h = refl
ends_in_slash-name (c ∷ n) h = ground (arith, h, ends_in_slash-name n)

has_slash-append : (n : Text) → has_slash (n ++ codes "/") ≡ true
has_slash-append [] = refl
has_slash-append (c ∷ n) = ground (arith, has_slash-append n)

text_ne : (s t : Text) → s ≢ t → text_eq s t ≡ false
text_ne s t h = ground (arith, h, text_eq_iff s t)

append-some : (n : Text) → is_empty (n ++ codes "/") ≡ false
append-some [] = refl
append-some (c ∷ n) = refl

text_eq_self : (s : Text) → text_eq s s ≡ true
text_eq_self s = (text_eq_iff s s).1 refl

-- One line of the output, of a name that is not empty and has no slash.
ls_entries-line :
    (n : Text) (b : Bool) (ls : List Text)
    → is_empty n ≡ false
    → has_slash n ≡ false
    → ls_entries (ls_line (n, b) ∷ ls)
      ≡ (if text_eq n git_folder then ls_entries ls else (n, b) ∷ ls_entries ls)
unfolding ls_entries
ls_entries-line n true ls e h = elim (Bool-cases (text_eq n git_folder)) [
  | inl git ↦ rw ((text_eq_iff n git_folder).0 git) refl
  | inr other ↦
      let ne : n ≢ git_folder = λ q. cc (sym other ∙ (text_eq_iff n git_folder).1 q) in
      let a : text_eq (n ++ codes "/") git_folder ≡ false =
        text_ne (n ++ codes "/") git_folder (λ q. cc (sym (has_slash-append n) ∙ ap has_slash q)) in
      let c : text_eq (n ++ codes "/") (git_folder ++ codes "/") ≡ false =
        text_ne (n ++ codes "/") (git_folder ++ codes "/")
          (λ q. ne (sym (trim_slash-append n) ∙ ap trim_slash q)) in
      rw (other, append-some n, a, c, trim_slash-append n, e, has_suffix-append n) refl
]
ls_entries-line n false ls e h = elim (Bool-cases (text_eq n git_folder)) [
  | inl git ↦ rw ((text_eq_iff n git_folder).0 git) refl
  | inr other ↦
      let c : text_eq n (git_folder ++ codes "/") ≡ false =
        text_ne n (git_folder ++ codes "/") (λ q. cc) in
      rw (other, e, c, trim_slash-name n h, e, ends_in_slash-name n h) refl
]

abbrev pub IsEntry : Text × Bool → Type 0
IsEntry (n, b) = (is_empty n ≡ false) × (has_slash n ≡ false)

-- The lines that `ls -1pA` prints of a folder's entries are read back as those entries, in order, but
-- for the folder or file `.git`, if no name is empty or has a slash in it.
pub ls_entries-lines :
    (es : List (Text × Bool))
    → All IsEntry es
    → ls_entries (map ls_line es) ≡ keep (λ (n, b). not (text_eq n git_folder)) es
ls_entries-lines [] v = unfold ls_entries in refl
ls_entries-lines ((n, b) ∷ es) v =
    ls_entries-line n b (map ls_line es) v.0.0 v.0.1 ∙ elim (Bool-cases (text_eq n git_folder)) [
      | inl git ↦ rw git (ls_entries-lines es v.1)
      | inr other ↦ rw other (ap (λ t. (n, b) ∷ t) (ls_entries-lines es v.1))
    ]
