-- ===== src/App/Files/Listing/Printed.antt =====
-- app/bindings.go: the output of `ls` is cut into lines and read back.
use claude_squad_ide.Base.{
  ℕ, ◌≡◌, refl, ap, ◌∙◌, Bool, true, false, not, ◌||◌, leb, ◌==◌, List, [], ◌∷◌, ◌++◌, Text, codes,
  All, is_empty, map, keep, any, text_eq, arith, split, push_head, is_space, trim_left, trim_right,
  push_unless, if_false,
}
use claude_squad_ide.App.Files.Paths.{has_slash}
use claude_squad_ide.App.Files.Listing.{git_folder, ls_entries, ls_output}
use claude_squad_ide.App.Files.Listing.Lines.{ls_line, IsEntry, ls_entries-lines}

abbrev pub has_newline : Text → Bool
has_newline l = any (λ c. c == b'\n') l

-- White space, or a byte beyond ASCII, which may belong to white space of Unicode.
abbrev pub is_blank : ℕ → Bool
is_blank c = is_space c || leb 128 c

abbrev pub begins_blank : Text → Bool
begins_blank [] = false
begins_blank (c ∷ l) = is_blank c

abbrev pub ends_blank : Text → Bool
ends_blank [] = false
ends_blank (c ∷ []) = is_blank c
ends_blank (c ∷ d ∷ l) = ends_blank (d ∷ l)

-- What `ls -1pA` prints: a line for each entry, with its end.
abbrev pub printed : List Text → Text
printed [] = []
printed (l ∷ ls) = l ++ b'\n' ∷ printed ls

abbrev joined : Text → List Text → Text
joined l [] = l
joined l (m ∷ ls) = l ++ b'\n' ∷ joined m ls

abbrev IsLine : Text → Type 0
IsLine l =
    (is_empty l ≡ false)
    × (has_newline l ≡ false)
    × (begins_blank l ≡ false)
    × (ends_blank l ≡ false)

push_full : (b : Bool) (c : ℕ) (t : Text) → is_empty t ≡ false → push_unless b c t ≡ c ∷ t
push_full b c [] e = cc
push_full b c (d ∷ t) e = refl

some-append : (s t : Text) → is_empty t ≡ false → is_empty (s ++ t) ≡ false
some-append [] t e = e
some-append (c ∷ s) t e = refl

append-some : (s t : Text) → is_empty s ≡ false → is_empty (s ++ t) ≡ false
append-some [] t e = cc
append-some (c ∷ s) t e = refl

trim_right-append :
    (p : ℕ → Bool) (s t : Text)
    → is_empty (trim_right p t) ≡ false
    → trim_right p (s ++ t) ≡ s ++ trim_right p t
trim_right-append p [] t e = refl
trim_right-append p (c ∷ s) t e =
    ap (push_unless (p c) c) (trim_right-append p s t e)
    ∙ push_full (p c) c (s ++ trim_right p t) (some-append s (trim_right p t) e)

trim_right-line :
    (l : Text)
    → is_empty l ≡ false
    → ends_blank l ≡ false
    → trim_right is_space (l ++ b'\n' ∷ []) ≡ l
trim_right-line [] e b = cc
trim_right-line (c ∷ []) e b = if_false (is_space c) [] (c ∷ []) (ground (arith, b))
trim_right-line (c ∷ d ∷ l) e b = ap (push_unless (is_space c) c) (trim_right-line (d ∷ l) refl b)

joined-some : (l : Text) (ls : List Text) → is_empty l ≡ false → is_empty (joined l ls) ≡ false
joined-some l [] e = e
joined-some l (m ∷ ls) e = append-some l (b'\n' ∷ joined m ls) e

trim_right-printed :
    (l : Text) (ls : List Text)
    → All IsLine (l ∷ ls)
    → trim_right is_space (printed (l ∷ ls)) ≡ joined l ls
trim_right-printed l [] a = trim_right-line l a.0.0 a.0.3
trim_right-printed l (m ∷ ls) a =
    let ih = trim_right-printed m ls a.1 in
    let full : trim_right is_space (b'\n' ∷ printed (m ∷ ls)) ≡ b'\n' ∷ joined m ls =
      ap (push_unless true b'\n') ih
      ∙ push_full true b'\n' (joined m ls) (joined-some m ls a.1.0.0) in
    trim_right-append is_space l (b'\n' ∷ printed (m ∷ ls)) (ap is_empty full)
    ∙ ap (λ t. l ++ t) full

trim_left-printed :
    (l : Text) (ls : List Text)
    → IsLine l
    → trim_left is_space (printed (l ∷ ls)) ≡ printed (l ∷ ls)
trim_left-printed [] ls v = cc v.0
trim_left-printed (c ∷ l) ls v = if_false (is_space c) _ _ (ground (arith, v.2))

split-line : (l t : Text) → has_newline l ≡ false → split b'\n' (l ++ b'\n' ∷ t) ≡ l ∷ split b'\n' t
split-line [] t h = refl
split-line (c ∷ l) t h =
    if_false (c == b'\n') _ _ (ground (arith, h))
    ∙ ap (push_head c) (split-line l t (ground (arith, h)))

split-last : (l : Text) → has_newline l ≡ false → split b'\n' l ≡ l ∷ []
split-last [] h = refl
split-last (c ∷ l) h =
    if_false (c == b'\n') _ _ (ground (arith, h))
    ∙ ap (push_head c) (split-last l (ground (arith, h)))

split-joined :
    (l : Text) (ls : List Text) → All IsLine (l ∷ ls) → split b'\n' (joined l ls) ≡ l ∷ ls
split-joined l [] a = split-last l a.0.1
split-joined l (m ∷ ls) a =
    split-line l (joined m ls) a.0.1 ∙ ap (λ ms. l ∷ ms) (split-joined m ls a.1)

-- A name of one line, with no slash, and no white space around it.
abbrev pub IsPlain : Text × Bool → Type 0
IsPlain (n, b) =
    (is_empty n ≡ false)
    × (has_slash n ≡ false)
    × (has_newline n ≡ false)
    × (begins_blank n ≡ false)
    × (ends_blank n ≡ false)

no_newline-slash : (n : Text) → has_newline n ≡ false → has_newline (n ++ codes "/") ≡ false
no_newline-slash [] h = refl
no_newline-slash (c ∷ n) h = ground (arith, h, no_newline-slash n)

ends_blank-slash : (n : Text) → ends_blank (n ++ codes "/") ≡ false
ends_blank-slash [] = refl
ends_blank-slash (c ∷ []) = refl
ends_blank-slash (c ∷ d ∷ n) = ends_blank-slash (d ∷ n)

ls_line-IsLine : (n : Text) (b : Bool) → IsPlain (n, b) → IsLine (ls_line (n, b))
ls_line-IsLine [] b v = cc v.0
ls_line-IsLine (c ∷ n) true v = (refl, no_newline-slash (c ∷ n) v.2, v.3, ends_blank-slash (c ∷ n))
ls_line-IsLine (c ∷ n) false v = (refl, v.2, v.3, v.4)

lines-IsLine : (es : List (Text × Bool)) → All IsPlain es → All IsLine (map ls_line es)
lines-IsLine [] a = tt
lines-IsLine ((n, b) ∷ es) a = (ls_line-IsLine n b a.0, lines-IsLine es a.1)

All-IsEntry : (es : List (Text × Bool)) → All IsPlain es → All IsEntry es
All-IsEntry [] a = tt
All-IsEntry ((n, b) ∷ es) a = ((a.0.0, a.0.1), All-IsEntry es a.1)

ls_output-lines : (ls : List Text) → All IsLine ls → ls_output (printed ls) ≡ ls_entries ls
unfolding ls_entries
ls_output-lines [] a = refl
ls_output-lines (l ∷ ls) a =
    ap (λ t. ls_entries (split b'\n' (trim_right is_space t))) (trim_left-printed l ls a.0)
    ∙ ap (λ t. ls_entries (split b'\n' t)) (trim_right-printed l ls a)
    ∙ ap ls_entries (split-joined l ls a)

-- The output of `ls -1pA` for a folder's entries, as it is printed, is read back as those entries, in
-- order, but for the folder or file `.git`, if no name is empty, has a slash or a newline in it, or
-- begins or ends with white space or beyond ASCII.
pub ls_output-printed :
    (es : List (Text × Bool))
    → All IsPlain es
    → ls_output (printed (map ls_line es)) ≡ keep (λ (n, b). not (text_eq n git_folder)) es
ls_output-printed es a =
    ls_output-lines (map ls_line es) (lines-IsLine es a) ∙ ls_entries-lines es (All-IsEntry es a)
