-- ===== src/Base/Texts.antt =====
-- Go strings that the program walks through, as the list of their bytes or runes.
use Prim.Native.Nat.{ℕ}
use Prim.Native.Char.{code}
use Prim.Native.String.{String}
use mathlib.Core.Path.{◌≡◌}
use mathlib.Core.Logic.{◌↔◌}
use mathlib.Core.Bool.{Bool, true, false, ◌&&◌, ◌||◌}
use mathlib.Core.List.{List, [], ◌∷◌, ◌++◌}
use native.Mathlib.Omega.{arith}
use claude_squad_ide.Base.Lists.{length, drop}
use claude_squad_ide.Base.Tests.{◌==◌, leb, if◌then◌else◌}

abbrev pub Text : Type 0
Text = List ℕ

-- The code points of a literal: its bytes, if it is ASCII.
abbrev pub codes : String → Text
codes String.[] = []
codes (String.◌∷◌ c s) = code c ∷ codes s

-- `a == b` on strings.
abbrev pub text_eq : Text → Text → Bool
text_eq [] [] = true
text_eq [] (d ∷ t) = false
text_eq (c ∷ s) [] = false
text_eq (c ∷ s) (d ∷ t) = c == d && text_eq s t

-- `strings.HasPrefix(s, p)`.
abbrev pub has_prefix : Text → Text → Bool
has_prefix s [] = true
has_prefix [] (d ∷ p) = false
has_prefix (c ∷ s) (d ∷ p) = c == d && has_prefix s p

-- `strings.Contains(s, p)`.
abbrev pub contains : Text → Text → Bool
contains [] p = has_prefix [] p
contains (c ∷ s) p = has_prefix (c ∷ s) p || contains s p

pub text_eq_iff : (s t : Text) → (text_eq s t ≡ true) ↔ (s ≡ t)
text_eq_iff [] [] = ground arith
text_eq_iff [] (d ∷ t) = ground arith
text_eq_iff (c ∷ s) [] = ground arith
text_eq_iff (c ∷ s) (d ∷ t) = ground (arith, text_eq_iff s t)

-- The first byte of a text joins the first of a list of parts.
abbrev pub push_head : ℕ → List Text → List Text
push_head c [] = (c ∷ []) ∷ []
push_head c (p ∷ ps) = (c ∷ p) ∷ ps

-- `strings.Split(s, sep)` for a separator of one byte.
abbrev pub split : ℕ → Text → List Text
split sep [] = [] ∷ []
split sep (c ∷ s) = let rest = split sep s in if c == sep then [] ∷ rest else push_head c rest

-- `strings.TrimPrefix(s, p)`.
abbrev pub trim_prefix : Text → Text → Text
trim_prefix s p = if has_prefix s p then drop (length p) s else s

-- The white space of ASCII, for `strings.TrimSpace` and `strings.Fields`.
abbrev pub is_space : ℕ → Bool
is_space c = c == b' ' || (leb 9 c && leb c 13)

abbrev pub trim_left : (ℕ → Bool) → Text → Text
trim_left p [] = []
trim_left p (c ∷ s) = if p c then trim_left p s else c ∷ s

abbrev pub push_unless : Bool → ℕ → Text → Text
push_unless skip c [] = if skip then [] else c ∷ []
push_unless skip c (d ∷ s) = c ∷ d ∷ s

abbrev pub trim_right : (ℕ → Bool) → Text → Text
trim_right p [] = []
trim_right p (c ∷ s) = push_unless (p c) c (trim_right p s)

-- `strings.TrimFunc`, which `strings.Trim` and `strings.TrimSpace` are instances of.
abbrev pub trim : (ℕ → Bool) → Text → Text
trim p s = trim_right p (trim_left p s)

abbrev pub trim_space : Text → Text
trim_space s = trim is_space s

-- `strings.HasSuffix(s, p)`.
abbrev pub has_suffix : Text → Text → Bool
has_suffix [] p = text_eq [] p
has_suffix (c ∷ s) p = text_eq (c ∷ s) p || has_suffix s p

-- A word ends at white space; an empty one is no word.
abbrev pub push_word : Text → List Text → List Text
push_word [] ws = ws
push_word (c ∷ w) ws = (c ∷ w) ∷ ws

abbrev pub words_from : Text → Text → List Text
words_from word [] = push_word word []
words_from word (c ∷ s) =
    let stop = push_word word (words_from [] s) in
    let more = words_from (word ++ c ∷ []) s in if is_space c then stop else more

-- `strings.Fields(s)`.
abbrev pub fields : Text → List Text
fields s = words_from [] s

-- `strings.Join(parts, sep)`.
abbrev pub join_from : Text → Text → List Text → Text
join_from sep p [] = p
join_from sep p (q ∷ ps) = p ++ sep ++ join_from sep q ps

abbrev pub join : List Text → Text → Text
join [] sep = []
join (p ∷ ps) sep = join_from sep p ps
