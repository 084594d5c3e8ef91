-- ===== src/Pty/Monitor.antt =====
-- pty/monitor.go: the ring buffer with the newest output of a terminal, and the search for prompts.
pub mod Ring
pub mod Window
pub mod Prompts
mod Tests
use claude_squad_ide.Base.{
  ℕ, ◌+◌, ◌-◌, ◌%◌, Bool, true, false, ◌&&◌, ◌||◌, List, [], ◌∷◌, ◌++◌, Text, codes, length, set,
  take, drop, replicate, any, contains, text_eq, ◌==◌, ltb, if◌then◌else◌,
}

-- `strings.Contains(tail, p)` for one of these.
abbrev pub prompt_patterns : List Text
prompt_patterns =
    codes "(y/n)"
    ∷ codes "(Y/N)"
    ∷ codes "[Y/n]"
    ∷ codes "[y/N]"
    ∷ codes "? (y)"
    ∷ codes "? (n)"
    ∷ codes "Do you want to proceed"
    ∷ codes "Would you like to"
    ∷ codes "Press Enter"
    ∷ codes "press enter"
    ∷ []

-- The bytes of U+276F in UTF-8.
abbrev pub idle_patterns : List Text
idle_patterns = (0xe2 ∷ 0x9d ∷ 0xaf ∷ []) ∷ []

abbrev pub trust_patterns : List Text
trust_patterns =
    codes "Do you trust the files in this folder"
    ∷ codes "Trust this project"
    ∷ codes "trust the authors"
    ∷ []

pub record Monitor : Type 0 where
  pub buf : Text
  pub size : ℕ
  pub write_pos : ℕ
  pub used : ℕ
  pub last_hash : Text

unfoldable pub new_monitor : ℕ → Monitor
new_monitor size = record {
  buf = replicate size 0;
  size = size;
  write_pos = 0;
  used = 0;
  last_hash = replicate 32 0;
}

-- The body of the loop of `Write`.
unfoldable pub write_byte : Monitor → ℕ → Monitor
write_byte m b = record m {
  buf = set m.buf m.write_pos b;
  write_pos = (m.write_pos + 1) % m.size;
  used = if ltb m.used m.size then m.used + 1 else m.used;
}

unfoldable pub write : Monitor → Text → Monitor
write m [] = m
write m (b ∷ p) = write (write_byte m b) p

-- `copy(dst, src)`.
abbrev pub copy : Text → Text → Text
copy [] src = []
copy (d ∷ dst) [] = d ∷ dst
copy (d ∷ dst) (s ∷ src) = s ∷ copy dst src

-- `copy(dst[k:], src)`.
abbrev pub copy_at : ℕ → Text → Text → Text
copy_at k dst src = take k dst ++ copy (drop k dst) src

-- `contentLocked`, and `Content`, which takes the lock first.
unfoldable pub content : Monitor → Text
content m =
    if m.used == 0
    then []
    else if ltb m.used m.size
    then take m.used m.buf
    else copy_at (m.size - m.write_pos) (copy (replicate m.size 0) (drop m.write_pos m.buf))
        (take m.write_pos m.buf)

-- `if len(tail) > 500 { tail = tail[len(tail)-500:] }`
unfoldable pub tail_500 : Text → Text
tail_500 s = if ltb 500 (length s) then drop (length s - 500) s else s

unfoldable pub check_prompt : Monitor → Bool
check_prompt m =
    let tail = tail_500 (content m) in
    any (contains tail) prompt_patterns || any (contains tail) idle_patterns

unfoldable pub has_prompt : Monitor → Bool
has_prompt m = if m.used == 0 then false else check_prompt m

unfoldable pub check_trust_prompt : Monitor → Bool
check_trust_prompt m = any (contains (tail_500 (content m))) trust_patterns

-- `HasUpdated`: whether the buffer changed since the last call, and whether it shows a prompt.
unfoldable pub has_updated : (Text → Text) → Monitor → Monitor × (Bool × Bool)
has_updated sha256 m =
    let hash = sha256 (take m.used m.buf) in
    if m.used == 0
    then (m, (false, false))
    else if text_eq hash m.last_hash
    then (m, (false, false))
    else (record m { last_hash = hash }, (true, check_prompt (record m { last_hash = hash })))
