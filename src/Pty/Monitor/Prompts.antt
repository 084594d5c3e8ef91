-- ===== src/Pty/Monitor/Prompts.antt =====
-- pty/monitor.go: which prompts and which changes are reported.
use claude_squad_ide.Base.{
  ℕ, zero, suc, ◌≤◌, ◌≡◌, refl, ap, ◌∙◌, [], ◌∷◌, Bool, true, false, ◌||◌, arith, Text, any,
  contains, set, take, drop, text_eq_iff, ◌==◌,
}
use claude_squad_ide.Pty.Monitor.{
  Monitor, new_monitor, write_byte, write, content, tail_500, check_prompt, has_prompt, has_updated,
  prompt_patterns, idle_patterns,
}
use claude_squad_ide.Pty.Monitor.Window.{
  newest, newest-newest, newest-short, content-write-new_monitor,
}

tail_500-newest : (s : Text) → tail_500 s ≡ newest 500 s
unfolding tail_500
tail_500-newest s = ground (arith, newest-short 500 s)

-- A text shows a prompt if one of the patterns occurs in it.
abbrev pub shows_prompt : Text → Bool
shows_prompt s = any (contains s) prompt_patterns || any (contains s) idle_patterns

-- An empty buffer shows no prompt, so the early return of `HasPrompt` changes nothing.
check_prompt-empty : (m : Monitor) → (m.used == 0) ≡ true → check_prompt m ≡ false
unfolding check_prompt content tail_500
check_prompt-empty m e = rw (e, ◌≡◌)

has_prompt-check_prompt : (m : Monitor) → has_prompt m ≡ check_prompt m
unfolding has_prompt
has_prompt-check_prompt m = ground (arith, check_prompt-empty m)

check_prompt-shows : (m : Monitor) → check_prompt m ≡ shows_prompt (newest 500 (content m))
unfolding check_prompt
check_prompt-shows m = rw (tail_500-newest (content m))

-- A monitor of at least 500 bytes reports a prompt exactly if one of the prompt or idle patterns
-- occurs in the last 500 bytes of all that was written since it was made.
pub has_prompt-write :
    (n : ℕ) (p : Text)
    → 500 ≤ n
    → has_prompt (write (new_monitor n) p) ≡ shows_prompt (newest 500 p)
has_prompt-write n p h =
    has_prompt-check_prompt _
    ∙ (check_prompt-shows _
        ∙ (rw (content-write-new_monitor n p (omega arith), newest-newest 500 n p h)))

-- A second poll with no write between reports no update and no prompt, whatever the hash.
pub has_updated_twice :
    (sha256 : Text → Text) (m : Monitor)
    → (has_updated sha256 (has_updated sha256 m).0).1 ≡ (false, false)
unfolding has_updated
has_updated_twice sha256 m =
    ground (arith, text_eq_iff (sha256 (take m.used m.buf)) (sha256 (take m.used m.buf)))

set_same : (xs : Text) (i b : ℕ) (rest : Text) → drop i xs ≡ b ∷ rest → set xs i b ≡ xs
set_same [] i b rest h = refl
set_same (x ∷ xs) zero b rest h = cc
set_same (x ∷ xs) (suc i) b rest h = ap (λ t. x ∷ t) (set_same xs i b rest h)

-- When the buffer is full and the next byte written equals the oldest byte held, the poll after
-- that write reports no update: the hash is taken of the ring in memory order, which did not
-- change, though the window moved on by one byte.
pub has_updated_missed :
    (sha256 : Text → Text) (m : Monitor) (b : ℕ) (rest : Text)
    → m.used ≡ m.size
    → drop m.write_pos m.buf ≡ b ∷ rest
    → (has_updated sha256 (write_byte (has_updated sha256 m).0 b)).1 ≡ (false, false)
unfolding has_updated write_byte
has_updated_missed sha256 m b rest full oldest = ground (
  arith,
  set_same m.buf m.write_pos b rest oldest,
  text_eq_iff (sha256 (take m.used m.buf)) (sha256 (take m.used m.buf)),
)
