-- ===== src/App/Memory.antt =====
-- app/memory.go: the limits that follow from the memory of the machine.
use claude_squad_ide.Base.{
  ℕ, zero, suc, List, [], ◌∷◌, Option, none, some, ltb, leb, length, if◌then◌else◌, ◌+◌, ◌*◌, ◌/◌,
}

pub record MemoryLimits : Type 0 where
  pub gomemlimit : ℕ
  pub idle_timeout_minutes : ℕ

-- A 64-bit number from its bytes, the least one first.
abbrev pub little_endian : ℕ → List ℕ → ℕ
little_endian zero bytes = 0
little_endian (suc n) [] = 0
little_endian (suc n) (b ∷ bytes) = b + 256 * little_endian n bytes

abbrev pub memory_in : List ℕ → ℕ
memory_in raw = if ltb (length raw) 8 then 8192 else little_endian 8 raw / (1024 * 1024)

-- `raw` is what the system says of hw.memsize.
unfoldable pub get_system_memory_mb : Option (List ℕ) → ℕ
get_system_memory_mb none = 8192
get_system_memory_mb (some raw) = memory_in raw

unfoldable pub compute_memory_limits : ℕ → MemoryLimits
compute_memory_limits ram_mb =
    if leb ram_mb 8192
    then record { gomemlimit = 128 * 1024 * 1024; idle_timeout_minutes = 15 }
    else if leb ram_mb 16384
    then record { gomemlimit = 256 * 1024 * 1024; idle_timeout_minutes = 30 }
    else if leb ram_mb 32768
    then record { gomemlimit = 384 * 1024 * 1024; idle_timeout_minutes = 60 }
    else record { gomemlimit = 512 * 1024 * 1024; idle_timeout_minutes = 0 }
