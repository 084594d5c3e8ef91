-- ===== src/Pty/Monitor/Tests.antt =====
-- pty/monitor.go: runs of the definitions, and the theorems at concrete inputs.
use claude_squad_ide.Base.{◌≡◌, refl, true, [], ◌++◌, arith, codes}
use claude_squad_ide.Pty.Monitor.{Monitor, new_monitor, write_byte, write, content, has_prompt}
use claude_squad_ide.Pty.Monitor.Ring.{IsValid}
use claude_squad_ide.Pty.Monitor.Window.{newest, content-write}
use claude_squad_ide.Pty.Monitor.Prompts.{shows_prompt, has_prompt-write}

-- Four bytes, wrapped once: "cdef" in the order "efcd".
abbrev wrapped : Monitor
wrapped = record { buf = codes "efcd"; size = 4; write_pos = 2; used = 4; last_hash = [] }

write_wraps : write (new_monitor 4) (codes "abcdef") ≡ record {
  buf = codes "efcd";
  size = 4;
  write_pos = 2;
  used = 4;
  last_hash = (new_monitor 4).last_hash;
}
unfolding write write_byte new_monitor
write_wraps = refl

content-wrapped : content wrapped ≡ codes "cdef"
unfolding content
content-wrapped = refl

wrapped-IsValid : IsValid wrapped
wrapped-IsValid = record {
  sized = refl;
  in_range = omega arith;
  bounded = omega arith;
  filling = λ h. absurd (omega arith);
}

content-write_example :
    content (write wrapped (codes "gh")) ≡ newest 4 (content wrapped ++ codes "gh")
content-write_example = content-write wrapped (codes "gh") wrapped-IsValid

has_prompt-write_example :
    has_prompt (write (new_monitor 500) (codes "Proceed? (y/n)"))
    ≡ shows_prompt (newest 500 (codes "Proceed? (y/n)"))
has_prompt-write_example = has_prompt-write 500 (codes "Proceed? (y/n)") (omega arith)

prompt_shown : shows_prompt (newest 500 (codes "Proceed? (y/n)")) ≡ true
prompt_shown = refl

-- The content did change.
missed_change : content (write_byte wrapped b'c') ≡ codes "defc"
unfolding content write_byte
missed_change = refl
