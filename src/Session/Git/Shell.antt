-- ===== src/Session/Git/Shell.antt =====
-- session/git/executor.go: the command line that is sent to a remote host.
use claude_squad_ide.Base.{
  ℕ, ◌≡◌, refl, ap, Bool, List, [], ◌∷◌, ◌++◌, Option, none, some, Text, codes, is_empty, any, join,
  Bool-cases, inl, inr, ◌==◌, ==_iff, if◌then◌else◌,
}

-- `strings.ReplaceAll(s, "'", "'\"'\"'")`
abbrev pub escape_quotes : Text → Text
escape_quotes [] = []
escape_quotes (c ∷ s) =
    if c == b'\''
    then b'\'' ∷ b'"' ∷ b'\'' ∷ b'"' ∷ b'\'' ∷ escape_quotes s
    else c ∷ escape_quotes s

unfoldable pub shell_escape : Text → Text
shell_escape s = b'\'' ∷ escape_quotes s ++ b'\'' ∷ []

abbrev pub command_line : Text → List Text → Text
command_line name [] = name
command_line name (a ∷ args) = name ++ codes " " ++ join (a ∷ args) (codes " ")

unfoldable pub build_remote_command : Text → Text → List Text → Text
unfolding shell_escape
build_remote_command dir name args =
    if is_empty dir
    then command_line name args
    else codes "cd " ++ shell_escape dir ++ codes " && " ++ command_line name args

-- How a POSIX shell reads one word: outside quotes, within single and within double quotes. The
-- result is `none` where a quote is open at the end, or where an unquoted character, or one within
-- double quotes, means something else than itself.
pub data Quoting : Type 0 where
  outside single double : Quoting

abbrev pub special_outside : Text
special_outside = codes " \t\n|&;<>()$`\\*?[#~=%"

abbrev pub special_double : Text
special_double = codes "$`\\"

abbrev pub one_of : Text → ℕ → Bool
one_of t c = any (λ d. d == c) t

abbrev pub then_char : ℕ → Option Text → Option Text
then_char c none = none
then_char c (some t) = some (c ∷ t)

unfoldable pub read_word : Quoting → Text → Option Text
read_word outside [] = some []
read_word single [] = none
read_word double [] = none
read_word outside (c ∷ s) =
    let quoted = read_word single s in
    let twice = read_word double s in
    let rest = read_word outside s in
    if c == b'\''
    then quoted
    else if c == b'"'
    then twice
    else if one_of special_outside c
    then none
    else then_char c rest
read_word single (c ∷ s) =
    let after = read_word outside s in
    let rest = read_word single s in if c == b'\'' then after else then_char c rest
read_word double (c ∷ s) =
    let after = read_word outside s in
    let rest = read_word double s in
    if c == b'"' then after else if one_of special_double c then none else then_char c rest

read_word-escape_quotes : (s : Text) → read_word single (escape_quotes s ++ b'\'' ∷ []) ≡ some s
unfolding read_word
read_word-escape_quotes [] = refl
read_word-escape_quotes (c ∷ s) = elim (Bool-cases (c == b'\'')) [
  | inl e ↦ rw ((==_iff c b'\'').0 e) (ap (then_char b'\'') (read_word-escape_quotes s))
  | inr e ↦ rw (e, e) (ap (then_char c) (read_word-escape_quotes s))
]

-- A shell reads back from the escaped form of a text, as one word, exactly that text.
pub read_word-shell_escape : (s : Text) → read_word outside (shell_escape s) ≡ some s
unfolding read_word shell_escape
read_word-shell_escape s = read_word-escape_quotes s
