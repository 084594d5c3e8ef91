-- ===== src/App/Mcp/Lines.antt =====
-- app/mcp_server.go: reading a range of lines of a file, with bufio.Scanner.
use claude_squad_ide.Base.{
  ℕ, zero, suc, ◌+◌, ◌≤◌, ◌<◌, ◌≡◌, refl, ap, ◌∙◌, Bool, true, false, ◌&&◌, List, [], ◌∷◌, Option,
  none, some, Text, codes, split, is_empty, All, length, take, drop, ltb, leb, ◌==◌, arith,
  if◌then◌else◌,
}

-- bufio.ScanLines: the text after the last end of a line is a line if it is not empty, and one
-- carriage return is taken off each.
abbrev pub drop_last_empty : List Text → List Text
drop_last_empty [] = []
drop_last_empty (l ∷ []) = if is_empty l then [] else l ∷ []
drop_last_empty (l ∷ k ∷ ls) = l ∷ drop_last_empty (k ∷ ls)

abbrev pub drop_return : Text → Text
drop_return [] = []
drop_return (c ∷ []) = if c == b'\r' then [] else c ∷ []
drop_return (c ∷ d ∷ s) = c ∷ drop_return (d ∷ s)

unfoldable pub raw_lines : Text → List Text
raw_lines t = drop_last_empty (split b'\n' t)

-- A line that does not fit into the scanner's buffer ends the scan with an error.
unfoldable pub is_too_long : Text → Bool
is_too_long l = ltb 65535 (length l)

abbrev pub too_long : Text
too_long = codes "bufio.Scanner: token too long"

abbrev pub in_range : ℕ → ℕ → ℕ → Bool
in_range start end n = leb start n && leb n end

abbrev pub push_if : Bool → Text → List Text × Option Text → List Text × Option Text
push_if keep_it l (ls, e) = (if keep_it then l ∷ ls else ls, e)

-- The loop after `n` lines; `show` is what is kept of a line and its number.
unfoldable pub scan : (ℕ → Text → Text) → ℕ → ℕ → ℕ → List Text → List Text × Option Text
scan show start end n [] = ([], none)
scan show start end n (l ∷ ls) =
    let k = suc n in
    let rest = scan show start end k ls in
    let line = show k (drop_return l) in
    if is_too_long l
    then ([], some too_long)
    else if ltb end k
    then ([], none)
    else push_if (in_range start end k) line rest

-- The lines from `start` to `end`, and the error of the scan.
unfoldable pub scan_range : (ℕ → Text → Text) → ℕ → ℕ → Text → List Text × Option Text
unfolding scan raw_lines is_too_long
scan_range show start end t = scan show start end 0 (raw_lines t)

-- What is shown of the lines, the first of which has the number `n + 1`.
unfoldable pub numbered : (ℕ → Text → Text) → ℕ → List Text → List Text
numbered show n [] = []
numbered show n (l ∷ ls) = show (suc n) (drop_return l) ∷ numbered show (suc n) ls

abbrev pub Fits : Text → Type 0
Fits l = is_too_long l ≡ false

module _ (show : ℕ → Text → Text) (start end n : ℕ) (l : Text) (ls : List Text) (f : Fits l) where
  scan_stop : end < suc n → scan show start end n (l ∷ ls) ≡ ([], none)
  unfolding scan
  scan_stop h = ground (arith, f)

  scan_skip :
      suc n ≤ end → suc n < start → scan show start end n (l ∷ ls) ≡ scan show start end (suc n) ls
  unfolding scan
  scan_skip h k = ground (arith, f)

  scan_keep :
      suc n ≤ end
      → start ≤ suc n
      → scan show start end n (l ∷ ls)
        ≡ push_if true (show (suc n) (drop_return l)) (scan show start end (suc n) ls)
  unfolding scan
  scan_keep h k = ground (arith, f)

scan-within :
    (show : ℕ → Text → Text) (start end n m : ℕ) (ls : List Text)
    → end ≡ n + m
    → start ≤ suc n
    → All Fits ls
    → scan show start end n ls ≡ (numbered show n (take m ls), none)
scan-within show start end n zero [] e h f = unfold scan numbered in refl
scan-within show start end n (suc m) [] e h f = unfold scan numbered in refl
scan-within show start end n zero (l ∷ ls) e h f =
    scan_stop show start end n l ls f.0 (omega arith) ∙ (unfold numbered in refl)
scan-within show start end n (suc m) (l ∷ ls) e h f =
    scan_keep show start end n l ls f.0 (omega arith) h
    ∙ ap (push_if true (show (suc n) (drop_return l)))
        (scan-within show start end (suc n) m ls (omega arith) (omega arith) f.1)
    ∙ (unfold numbered in refl)

scan-before :
    (show : ℕ → Text → Text) (start end n d m : ℕ) (ls : List Text)
    → start ≡ suc (n + d)
    → end ≡ n + d + m
    → All Fits ls
    → scan show start end n ls ≡ (numbered show (n + d) (take m (drop d ls)), none)
scan-before show start end n zero m ls a e f =
    let z : n ≡ n + 0 = omega arith in
    scan-within show start end n m ls (omega arith) (omega arith) f
    ∙ ap (λ k. (numbered show k (take m ls), none)) z
scan-before show start end n (suc d) zero [] a e f = unfold scan numbered in refl
scan-before show start end n (suc d) (suc m) [] a e f = unfold scan numbered in refl
scan-before show start end n (suc d) m (l ∷ ls) a e f =
    let z : suc n + d ≡ n + suc d = omega arith in
    scan_skip show start end n l ls f.0 (omega arith) (omega arith)
    ∙ scan-before show start end (suc n) d m ls (omega arith) (omega arith) f.1
    ∙ ap (λ k. (numbered show k (take m (drop d ls)), none)) z

-- If no line is too long for the scanner, the lines from `s + 1` to `s + m` are read, or those of
-- them that the file has, each under its number, and without an error.
pub scan_range_lem :
    (show : ℕ → Text → Text) (s m : ℕ) (t : Text)
    → All Fits (raw_lines t)
    → scan_range show (suc s) (s + m) t ≡ (numbered show s (take m (drop s (raw_lines t))), none)
unfolding scan_range
scan_range_lem show s m t f =
    let z : 0 + s ≡ s = omega arith in
    scan-before show (suc s) (s + m) 0 s m (raw_lines t) (omega arith) (omega arith) f
    ∙ ap (λ k. (numbered show k (take m (drop s (raw_lines t))), none)) z
