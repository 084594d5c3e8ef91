-- ===== src/Pty/Monitor/Window.antt =====
-- pty/monitor.go: what the ring buffer holds is the end of everything that was written.
use native.Mathlib.Numerals.{add-one}
use claude_squad_ide.Base.{
  ℕ, zero, suc, ◌+◌, ◌-◌, ◌%◌, ◌≤◌, ◌<◌, ◌≡◌, refl, sym, ap, ◌∙◌, inl, inr, [], ◌∷◌, ◌++◌,
  append_assoc, append-nil, arith, Text, length, set, take, drop, replicate, length-set,
  length-append, length-take, length-drop, length-replicate, ltb, ltb→lt, Bool-cases, if◌then◌else◌,
}
use claude_squad_ide.Pty.Monitor.{Monitor, new_monitor, write_byte, write, content}
use claude_squad_ide.Pty.Monitor.Ring.{
  IsValid, new_monitor-IsValid, write_byte-IsValid, wrap_cases, copy_twice, take-all, take-set,
  drop-set,
}

-- The last `n` bytes of a text.
abbrev pub newest : ℕ → Text → Text
newest n s = drop (length s - n) s

drop-append-le : (k : ℕ) (xs ys : Text) → k ≤ length xs → drop k (xs ++ ys) ≡ drop k xs ++ ys
drop-append-le zero xs ys h = refl
drop-append-le (suc k) [] ys h = absurd (omega arith)
drop-append-le (suc k) (x ∷ xs) ys h = drop-append-le k xs ys (omega arith)

drop-nil : (n : ℕ) → drop {A = ℕ} n [] ≡ []
drop-nil zero = refl
drop-nil (suc n) = refl

drop-drop : (j k n : ℕ) (xs : Text) → k + j ≡ n → drop j (drop k xs) ≡ drop n xs
drop-drop j zero n xs e = ap (λ i. drop i xs) (omega arith)
drop-drop j (suc k) n [] e = drop-nil j ∙ sym (drop-nil n)
drop-drop j (suc k) zero (x ∷ xs) e = absurd (omega arith)
drop-drop j (suc k) (suc n) (x ∷ xs) e = drop-drop j k n xs (omega arith)

-- Dropping all but the last `n` twice is dropping once.
newest-append : (n : ℕ) (s t : Text) → newest n (newest n s ++ t) ≡ newest n (s ++ t)
newest-append n s t =
    let k : ℕ = length s - n in
    let e : newest n s ++ t ≡ drop k (s ++ t) = sym (drop-append-le k s t (omega arith)) in
    rw e (drop-drop _ k _ (s ++ t) (omega (arith, length-drop k (s ++ t), length-append s t)))

drop-all : (n : ℕ) (xs : Text) → length xs ≤ n → drop n xs ≡ []
drop-all zero [] h = refl
drop-all (suc n) [] h = refl
drop-all zero (x ∷ xs) h = absurd (omega arith)
drop-all (suc n) (x ∷ xs) h = drop-all n xs (omega arith)

-- The bytes of a full ring from index `p` on, round to the byte before it.
abbrev turned : ℕ → Text → Text
turned p buf = drop p buf ++ take p buf

-- Turning by the whole length is turning by none.
turned-wrap :
    (p n : ℕ) (buf : Text) → length buf ≡ n → p < n → turned ((p + 1) % n) buf ≡ turned (suc p) buf
turned-wrap p n buf l h = elim (wrap_cases p n h) [
  | inl (e, _) ↦ rw (e, add-one)
  | inr (e, last) ↦
      rw (e, drop-all (suc p) buf (omega arith), take-all buf (suc p) (omega arith))
        (append-nil buf)
]

turned-set :
    (p n b : ℕ) (buf : Text)
    → length buf ≡ n
    → p < n
    → turned ((p + 1) % n) (set buf p b) ≡ drop 1 (turned p buf ++ b ∷ [])
turned-set p n b buf l h =
    rw
      (
        turned-wrap p n (set buf p b) (length-set buf p b ∙ l) h,
        drop-set,
        take-set buf p b (omega arith),
      )
      (rw (append_assoc, drop-append-le 1 (drop p buf) _ (omega (arith, length-drop p buf))))

-- The bytes held, the older part first.
abbrev window : Monitor → Text
window m = if ltb m.used m.size then take m.used m.buf else turned m.write_pos m.buf

content-window : (m : Monitor) → IsValid m → content m ≡ window m
unfolding content
content-window m v =
    let r : m.size - m.write_pos ≡ length (drop m.write_pos m.buf) =
      omega (arith, length-drop m.write_pos m.buf, v.sized) in
    let full = copy_twice (replicate m.size 0) (drop m.write_pos m.buf) (take m.write_pos m.buf) (
      omega (
        arith,
        length-replicate {A = ℕ} m.size 0,
        length-drop m.write_pos m.buf,
        length-take m.write_pos m.buf,
        v.sized,
        v.in_range,
      )) in
    rw r (ground (arith, full))

filling_step :
    (n s b : ℕ) (buf : Text)
    → length buf ≡ s
    → n < s
    → (if ltb (n + 1) s then take (n + 1) (set buf n b) else turned ((n + 1) % s) (set buf n b))
      ≡ take n buf ++ b ∷ []
filling_step n s b buf l h = elim (wrap_cases n s h) [
  | inl (e, more) ↦ rw (e, add-one) (ground (arith, take-set buf n b))
  | inr (e, last) ↦ rw e (
      ground (
        arith,
        append-nil (set buf n b),
        take-set buf n b,
        take-all (set buf n b) (suc n),
        length-set buf n b,
      ))
]

pub newest-short : (n : ℕ) (s : Text) → length s ≤ n → newest n s ≡ s
newest-short n s h = let e : length s - n ≡ 0 = omega arith in rw e

content-fits : (m : Monitor) → IsValid m → length (content m) ≤ m.size
content-fits m v = rw (content-window m v) (
    ground (
      arith,
      length-append (drop m.write_pos m.buf) (take m.write_pos m.buf),
      length-take m.used m.buf,
      length-take m.write_pos m.buf,
      length-drop m.write_pos m.buf,
      v.sized,
      v.in_range,
    ))

-- One written byte moves the window by one.
window-write_byte :
    (m : Monitor) (b : ℕ) → IsValid m → window (write_byte m b) ≡ newest m.size (window m ++ b ∷ [])
unfolding write_byte
window-write_byte m b v = elim (Bool-cases (ltb m.used m.size)) [
  | inl more ↦
      rw (more, v.filling (ltb→lt _ _ more))
        (filling_step m.used m.size b m.buf v.sized (ltb→lt _ _ more)
          ∙ sym (
              newest-short m.size _ (
                omega (
                  arith,
                  length-append (take m.used m.buf) (b ∷ []),
                  length-take m.used m.buf,
                  ltb→lt _ _ more,
                ))))
  | inr full ↦
      let e : length (turned m.write_pos m.buf ++ b ∷ []) - m.size ≡ 1 = omega (
        arith,
        length-append (turned m.write_pos m.buf) (b ∷ []),
        length-append (drop m.write_pos m.buf) (take m.write_pos m.buf),
        length-take m.write_pos m.buf,
        length-drop m.write_pos m.buf,
        v.sized,
        v.in_range,
      ) in
      rw (full, full, e) (turned-set m.write_pos m.size b m.buf v.sized v.in_range)
]

content-write_byte :
    (m : Monitor) (b : ℕ)
    → IsValid m
    → content (write_byte m b) ≡ newest m.size (content m ++ b ∷ [])
content-write_byte m b v =
    rw (content-window m v, content-window (write_byte m b) (write_byte-IsValid m b v))
      (window-write_byte m b v)

-- After a write into a well-formed monitor, `Content` is the last `size` bytes of what it held
-- followed by what was written.
pub content-write :
    (m : Monitor) (p : Text) → IsValid m → content (write m p) ≡ newest m.size (content m ++ p)
unfolding write write_byte
content-write m [] v = rw append-nil (sym (newest-short m.size (content m) (content-fits m v)))
content-write m (b ∷ p) v =
    content-write (write_byte m b) p (write_byte-IsValid m b v)
    ∙ (ap (λ t. newest m.size (t ++ p)) (content-write_byte m b v)
        ∙ (newest-append m.size (content m ++ b ∷ []) p
            ∙ ap (newest m.size) (append_assoc (content m) (b ∷ []) p)))

content-new_monitor : (n : ℕ) → content (new_monitor n) ≡ []
unfolding content new_monitor
content-new_monitor n = refl

-- What a new monitor of `n` bytes holds after writes that total `p` is the last `n` bytes of `p`.
pub content-write-new_monitor :
    (n : ℕ) (p : Text) → 0 < n → content (write (new_monitor n) p) ≡ newest n p
content-write-new_monitor n p h =
    content-write (new_monitor n) p (new_monitor-IsValid n h)
    ∙ (unfold new_monitor in rw (content-new_monitor n))

-- Writing in two parts is writing at once.
pub write-append : (m : Monitor) (p q : Text) → write (write m p) q ≡ write m (p ++ q)
unfolding write
write-append m [] q = refl
write-append m (b ∷ p) q = write-append (write_byte m b) p q

pub newest-newest : (k n : ℕ) (s : Text) → k ≤ n → newest k (newest n s) ≡ newest k s
newest-newest k n s h = drop-drop _ (length s - n) _ s (omega (arith, length-drop (length s - n) s))
