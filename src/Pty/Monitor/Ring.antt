-- ===== src/Pty/Monitor/Ring.antt =====
-- pty/monitor.go: the ring buffer is well formed, and one written byte moves its window by one.
use claude_squad_ide.Base.{
  ℕ, zero, suc, ◌+◌, ◌%◌, ◌≤◌, ◌<◌, ◌≡◌, refl, ap, ◌∙◌, ◌⊎◌, [], ◌∷◌, ◌++◌, arith, Text, length,
  set, take, drop, length-set, length-replicate,
}
use claude_squad_ide.Pty.Monitor.{Monitor, new_monitor, write_byte, write, copy, copy_at}

-- A buffer that is not full is filled from its start.
pub record IsValid (m : Monitor) : Type 0 where
  pub sized : length m.buf ≡ m.size
  pub in_range : m.write_pos < m.size
  pub bounded : m.used ≤ m.size
  pub filling : m.used < m.size → m.write_pos ≡ m.used

pub new_monitor-IsValid : (size : ℕ) → 0 < size → IsValid (new_monitor size)
unfolding new_monitor
new_monitor-IsValid size h = record {
  sized = length-replicate size 0;
  in_range = h;
  bounded = omega arith;
  filling = λ _. refl;
}

pub wrap_cases :
    (p n : ℕ) → p < n → ((p + 1) % n ≡ p + 1) × (p + 1 < n) ⊎ ((p + 1) % n ≡ 0) × (p + 1 ≡ n)
wrap_cases p n h = grind arith

pub write_byte-IsValid : (m : Monitor) (b : ℕ) → IsValid m → IsValid (write_byte m b)
unfolding write_byte
write_byte-IsValid m b v = record {
  sized = length-set m.buf m.write_pos b ∙ v.sized;
  in_range = ground (arith, wrap_cases m.write_pos m.size v.in_range, v.in_range);
  bounded = ground (arith, v.bounded);
  filling = ground (arith, wrap_cases m.write_pos m.size v.in_range, v.filling, v.bounded);
}

pub write-IsValid : (m : Monitor) (p : Text) → IsValid m → IsValid (write m p)
unfolding write
write-IsValid m [] v = v
write-IsValid m (b ∷ p) v = write-IsValid (write_byte m b) p (write_byte-IsValid m b v)

copy_all : (dst src : Text) → length dst ≡ length src → copy dst src ≡ src
copy_all [] [] h = refl
copy_all [] (s ∷ src) h = absurd (omega arith)
copy_all (d ∷ dst) [] h = absurd (omega arith)
copy_all (d ∷ dst) (s ∷ src) h = ap (λ t. s ∷ t) (copy_all dst src (omega arith))

-- Filling a fresh buffer of the right length in two steps gives the two parts.
pub copy_twice :
    (dst xs ys : Text)
    → length dst ≡ length xs + length ys
    → copy_at (length xs) (copy dst xs) ys ≡ xs ++ ys
copy_twice dst [] ys h = copy-nil dst ys h
  where
    copy-nil : (d s : Text) → length d ≡ 0 + length s → copy (copy d []) s ≡ s
    copy-nil [] s e = copy_all [] s (omega arith)
    copy-nil (x ∷ d) s e = copy_all (x ∷ d) s (omega arith)
copy_twice [] (x ∷ xs) ys h = absurd (omega arith)
copy_twice (d ∷ dst) (x ∷ xs) ys h = ap (λ t. x ∷ t) (copy_twice dst xs ys (omega arith))

pub take-all : (xs : Text) (n : ℕ) → length xs ≤ n → take n xs ≡ xs
take-all [] zero h = refl
take-all [] (suc n) h = refl
take-all (x ∷ xs) zero h = absurd (omega arith)
take-all (x ∷ xs) (suc n) h = ap (λ t. x ∷ t) (take-all xs n (omega arith))

pub take-set :
    (xs : Text) (i b : ℕ) → i < length xs → take (suc i) (set xs i b) ≡ take i xs ++ b ∷ []
take-set [] i b h = absurd (omega arith)
take-set (x ∷ xs) zero b h = refl
take-set (x ∷ xs) (suc i) b h = ap (λ t. x ∷ t) (take-set xs i b (omega arith))

pub drop-set : (xs : Text) (i b : ℕ) → drop (suc i) (set xs i b) ≡ drop 1 (drop i xs)
drop-set [] zero b = refl
drop-set [] (suc i) b = refl
drop-set (x ∷ xs) zero b = refl
drop-set (x ∷ xs) (suc i) b = drop-set xs i b
