-- ===== src/Session/Git/Names.antt =====
-- session/git/util.go, sanitizeBranchName, and session/git/worktree.go, deduplicateBranchName.
pub mod Sanitized
pub mod Fresh
use claude_squad_ide.Base.{
  ℕ, zero, suc, ◌+◌, Bool, true, false, not, ◌&&◌, ◌||◌, List, [], ◌∷◌, ◌++◌, Text, codes, keep,
  map, trim, leb, ◌==◌, itoa, if◌then◌else◌,
}

-- `[a-z0-9\-_/.]`
abbrev pub is_safe : ℕ → Bool
is_safe c =
    (leb b'a' c && leb c b'z')
    || (leb b'0' c && leb c b'9')
    || c == b'-'
    || c == b'_'
    || c == b'/'
    || c == b'.'

abbrev pub dash_for_space : ℕ → ℕ
dash_for_space c = if c == b' ' then b'-' else c

abbrev pub starts_dash : Text → Bool
starts_dash [] = false
starts_dash (c ∷ s) = c == b'-'

-- Each match of `-+` becomes one dash.
abbrev pub squeeze : Text → Text
squeeze [] = []
squeeze (c ∷ s) = if c == b'-' && starts_dash s then squeeze s else c ∷ squeeze s

-- `strings.Trim(s, "-/")`
abbrev pub is_edge : ℕ → Bool
is_edge c = c == b'-' || c == b'/'

-- `to_lower` is `strings.ToLower`.
unfoldable pub sanitize_branch_name : (Text → Text) → Text → Text
sanitize_branch_name to_lower s =
    trim is_edge (squeeze (keep is_safe (map dash_for_space (to_lower s))))

-- `succeeds` is whether `git show-ref --verify` finds the reference.
unfoldable pub branch_exists : (Text → Bool) → Text → Bool
branch_exists succeeds name =
    succeeds (codes "refs/heads/" ++ name) || succeeds (codes "refs/remotes/origin/" ++ name)

-- `fmt.Sprintf("%s-%d", branchName, i)`
abbrev pub candidate : Text → ℕ → Text
candidate name i = name ++ b'-' ∷ itoa i

-- `for i := 1; i <= 100; i++`, from `i` on, with `n` rounds to go.
unfoldable pub first_free : (Text → Bool) → Text → ℕ → ℕ → Text
unfolding branch_exists
first_free succeeds name zero i = name
first_free succeeds name (suc n) i =
    let rest = first_free succeeds name n (i + 1) in
    if branch_exists succeeds (candidate name i) then rest else candidate name i

unfoldable pub deduplicate_branch_name : (Text → Bool) → Text → Text
unfolding first_free
deduplicate_branch_name succeeds name =
    if branch_exists succeeds name then first_free succeeds name 100 1 else name
