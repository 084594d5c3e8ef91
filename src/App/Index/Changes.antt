-- ===== src/App/Index/Changes.antt =====
-- app/indexer_git.go: the hunks of a diff, and the symbols that they touch.
pub mod Complete
use claude_squad_ide.Base.{
  ℕ, zero, suc, ◌+◌, ◌-◌, ◌*◌, Bool, true, false, not, ◌&&◌, ◌||◌, List, [], ◌∷◌, ◌++◌, Option,
  none, some, Text, codes, Assoc, text_eq, is_empty, any, split, drop, length, has_prefix, is_some,
  leb, ◌==◌, if◌then◌else◌,
}
use claude_squad_ide.Session.Instance.World.{Reply, ok, err}
use claude_squad_ide.App.CallGraph.DeadCode.{Symbol}

pub data ChangeType : Type 0 where
  added modified deleted : ChangeType

pub record ChangedSymbol : Type 0 where
  pub symbol : Symbol
  pub change_type : ChangeType
  pub hunk_header : Text

pub record DiffHunk : Type 0 where
  pub file : Text
  pub old_start : ℕ
  pub old_count : ℕ
  pub new_start : ℕ
  pub new_count : ℕ
  pub header : Text
  pub added_lines : List ℕ
  pub removed_lines : List ℕ

-- The lines that bufio.Scanner gives: without a carriage return at the end, and up to the first that
-- does not fit its buffer.
abbrev pub without_return : Text → Text
without_return [] = []
without_return (c ∷ cs) = if (c == b'\r') && is_empty cs then [] else c ∷ without_return cs

abbrev pub scan : List Text → List Text
scan [] = []
scan (l ∷ []) = if is_empty l || leb 65536 (length l) then [] else without_return l ∷ []
scan (l ∷ m ∷ ls) =
    let rest = scan (m ∷ ls) in if leb 65536 (length l) then [] else without_return l ∷ rest

-- The second group of `^diff --git a/(.+) b/(.+)$`: what follows the last ` b/` that has text on
-- both sides; `inside` is whether there is text before.
abbrev pub last_path : Bool → Text → Option Text
last_path inside [] = none
last_path inside (c ∷ cs) = elim (last_path true cs) [
  | some p ↦ some p
  | none ↦
      if inside && has_prefix (c ∷ cs) (codes " b/") && not (is_empty (drop 3 (c ∷ cs)))
      then some (drop 3 (c ∷ cs))
      else none
]

abbrev pub after : Text → Text → Option Text
after p t = if has_prefix t p then some (drop (length p) t) else none

abbrev pub and_then : {A B : Type 0} → Option A → (A → Option B) → Option B
and_then none f = none
and_then (some a) f = f a

unfoldable pub file_of : Text → Option Text
file_of line = and_then (after (codes "diff --git a/") line) (last_path false)

abbrev pub is_digit : ℕ → Bool
is_digit c = leb b'0' c && leb c b'9'

abbrev pub digits_from : ℕ → Text → ℕ × Text
digits_from n [] = (n, [])
digits_from n (c ∷ cs) =
    let rest = digits_from (10 * n + (c - b'0')) cs in if is_digit c then rest else (n, c ∷ cs)

-- `\d+`
abbrev pub number : Text → Option (ℕ × Text)
number [] = none
number (c ∷ cs) = if is_digit c then some (digits_from 0 (c ∷ cs)) else none

-- `(\d+)(?:,(\d+))?`, where a count that is missing is 1.
abbrev pub with_count : ℕ × Text → Option ((ℕ × ℕ) × Text)
with_count (n, t) = elim (after (codes ",") t) [
  | none ↦ some ((n, 1), t)
  | some u ↦ and_then (number u) (λ (k, v). some ((n, k), v))
]

abbrev pub range : Text → Option ((ℕ × ℕ) × Text)
range t = and_then (number t) with_count

-- `^@@ -(\d+)(?:,(\d+))? \+(\d+)(?:,(\d+))? @@`
unfoldable pub hunk_of : Text → Option ((ℕ × ℕ) × (ℕ × ℕ))
hunk_of line = and_then (after (codes "@@ -") line) (λ t. and_then (range t) (λ (old, u).
    and_then (after (codes " +") u) (λ v.
      and_then (range v) (λ (new, x). and_then (after (codes " @@") x) (λ rest. some (old, new))))))

pub record Parser : Type 0 where
  pub hunks : List DiffHunk
  pub current_file : Text
  pub current_hunk : Option DiffHunk
  pub added_line_num : ℕ
  pub removed_line_num : ℕ

abbrev pub finished : Option DiffHunk → List DiffHunk → List DiffHunk
finished none hs = hs
finished (some h) hs = hs ++ h ∷ []

abbrev pub counted : Text → Option DiffHunk → Parser → Parser
counted line none p = p
counted [] (some h) p = p
counted (c ∷ cs) (some h) p =
    if c == b'+'
    then record p {
      current_hunk = some (record h { added_lines = h.added_lines ++ p.added_line_num ∷ [] });
      added_line_num = suc p.added_line_num;
    }
    else if c == b'-'
    then record p {
      current_hunk = some (record h { removed_lines = h.removed_lines ++ p.removed_line_num ∷ [] });
      removed_line_num = suc p.removed_line_num;
    }
    else if c == b' '
    then record p {
      added_line_num = suc p.added_line_num;
      removed_line_num = suc p.removed_line_num;
    }
    else p

abbrev pub started : Text → (ℕ × ℕ) × (ℕ × ℕ) → Parser → Parser
started line ((old, old_count), (new, new_count)) p = record p {
  hunks = finished p.current_hunk p.hunks;
  current_hunk = some (record {
    file = p.current_file;
    old_start = old;
    old_count = old_count;
    new_start = new;
    new_count = new_count;
    header = line;
    added_lines = [];
    removed_lines = [];
  });
  added_line_num = new;
  removed_line_num = old;
}

abbrev pub parse_line : Text → Option Text → Option ((ℕ × ℕ) × (ℕ × ℕ)) → Parser → Parser
parse_line line (some file) hunk p = record p { current_file = file }
parse_line line none (some ranges) p = started line ranges p
parse_line line none none p = counted line p.current_hunk p

abbrev pub parse_lines : List Text → Parser → Parser
parse_lines [] p = p
parse_lines (l ∷ ls) p = parse_lines ls (parse_line l (file_of l) (hunk_of l) p)

unfoldable pub parse_diff_output : Text → List DiffHunk
unfolding file_of hunk_of
parse_diff_output diff =
    let p = parse_lines (scan (split b'\n' diff)) (record {
      hunks = [];
      current_file = [];
      current_hunk = none;
      added_line_num = 0;
      removed_line_num = 0;
    }) in
    finished p.current_hunk p.hunks

abbrev pub diff_args : Text → Text → List Text
diff_args from to =
    codes "diff"
    ∷ codes "--unified=0"
    ∷ (if is_empty from then codes "HEAD" else from)
    ∷ (if is_empty to then [] else to ∷ [])

-- What git printed, and its error. An error with nothing printed is no hunk.
unfoldable pub git_diff_hunks : Text × Option Text → Reply (List DiffHunk)
unfolding parse_diff_output
git_diff_hunks (out, none) = ok (parse_diff_output out)
git_diff_hunks (out, some e) = if is_empty out then ok [] else err e

abbrev pub last_line : Symbol → ℕ
last_line sym = if sym.end_line == 0 then sym.line else sym.end_line

abbrev pub is_inside : Symbol → ℕ → Bool
is_inside sym line = leb sym.line line && leb line (last_line sym)

unfoldable pub get_change_type : Symbol → DiffHunk → Option ChangeType
get_change_type sym hunk =
    if any (is_inside sym) hunk.added_lines || any (is_inside sym) hunk.removed_lines
    then some modified
    else none

abbrev pub key : Symbol → Text
key sym = sym.file ++ (codes ":" ++ sym.name)

abbrev pub changed : DiffHunk → Symbol → ChangeType → ChangedSymbol
changed hunk sym c = record { symbol = sym; change_type = c; hunk_header = hunk.header }

-- A round of the loops, `seen` being the keys of the results so far.
abbrev pub visited :
    Option ChangeType
    → DiffHunk
    → Symbol
    → List ChangedSymbol
    → List ChangedSymbol
    → List ChangedSymbol
visited none hunk sym skip more = skip
visited (some c) hunk sym skip more = changed hunk sym c ∷ more

unfoldable pub changed_symbols : List Text → List (DiffHunk × Symbol) → List ChangedSymbol
unfolding get_change_type
changed_symbols seen [] = []
changed_symbols seen ((hunk, sym) ∷ pairs) =
    let skip = changed_symbols seen pairs in
    let more = changed_symbols (key sym ∷ seen) pairs in
    let next = visited (get_change_type sym hunk) hunk sym skip more in
    if not (text_eq sym.file hunk.file) || any (λ k. text_eq k (key sym)) seen then skip else next

-- The loops over the hunks, the names of the index and the symbols of a name: the pairs in the order
-- in which they are met, if each range over the map has the same order.
abbrev pub with_symbols :
    DiffHunk → List Symbol → List (DiffHunk × Symbol) → List (DiffHunk × Symbol)
with_symbols hunk [] more = more
with_symbols hunk (sym ∷ syms) more = (hunk, sym) ∷ with_symbols hunk syms more

abbrev pub with_names :
    DiffHunk → Assoc (List Symbol) → List (DiffHunk × Symbol) → List (DiffHunk × Symbol)
with_names hunk [] more = more
with_names hunk ((name, syms) ∷ m) more = with_symbols hunk syms (with_names hunk m more)

unfoldable pub pairs_met : List DiffHunk → Assoc (List Symbol) → List (DiffHunk × Symbol)
pairs_met [] m = []
pairs_met (hunk ∷ hunks) m = with_names hunk m (pairs_met hunks m)

-- The hunks of the diff, or its error, and the symbols of the index.
unfoldable pub get_changed_symbols :
    Reply (List DiffHunk) → Assoc (List Symbol) → Reply (List ChangedSymbol)
unfolding changed_symbols pairs_met
get_changed_symbols (err e) m = err e
get_changed_symbols (ok hunks) m = ok (changed_symbols [] (pairs_met hunks m))
