-- ===== src/App/Files/Paths.antt =====
-- app/bindings.go: from a path of the window to a path of the worktree.
--
-- `filepath.Clean` and `filepath.Join` are modelled for paths that begin with a slash, on a system
-- where that is the separator.
use claude_squad_ide.Base.{
  ℕ, ◌≡◌, refl, sym, ap, ◌∙◌, Bool, true, false, not, ◌&&◌, ◌||◌, List, [], ◌∷◌, ◌++◌, Text, codes,
  All, All-append, split, push_head, has_prefix, is_empty, text_eq, any, append_assoc, append-nil,
  Bool-cases, inl, inr, ◌==◌, arith, if◌then◌else◌,
}
use claude_squad_ide.Session.Instance.World.{Reply, ok, err}

-- The path with these names.
abbrev pub path_of : List Text → Text
path_of [] = []
path_of (n ∷ ns) = b'/' ∷ n ++ path_of ns

abbrev pub rooted : List Text → Text
rooted [] = codes "/"
rooted (n ∷ ns) = path_of (n ∷ ns)

abbrev pub drop_last : List Text → List Text
drop_last [] = []
drop_last (n ∷ []) = []
drop_last (n ∷ m ∷ ns) = n ∷ drop_last (m ∷ ns)

-- One name of the path, after those before it.
abbrev pub add_name : List Text → Text → List Text
add_name names n =
    if is_empty n || text_eq n (codes ".")
    then names
    else if text_eq n (codes "..")
    then drop_last names
    else names ++ n ∷ []

unfoldable pub clean_names : List Text → List Text → List Text
clean_names names [] = names
clean_names names (n ∷ ns) = clean_names (add_name names n) ns

unfoldable pub clean : Text → Text
unfolding clean_names
clean path = rooted (clean_names [] (split b'/' path))

unfoldable pub join_paths : Text → Text → Text
unfolding clean
join_paths root path = if is_empty root then clean path else clean (root ++ (codes "/" ++ path))

unfoldable pub resolve : Text → Text → Reply Text
unfolding clean join_paths
resolve worktree rel =
    let path = join_paths worktree (clean (b'/' ∷ rel)) in
    if has_prefix path worktree then ok path else err (codes "path outside worktree: " ++ rel)

abbrev pub has_slash : Text → Bool
has_slash = any (λ c. c == b'/')

-- A name that leads one level down.
abbrev pub is_name : Text → Bool
is_name n =
    not (is_empty n || text_eq n (codes ".")) && (not (text_eq n (codes "..")) && not (has_slash n))

abbrev pub Names : List Text → Type 0
Names = All (λ n. is_name n ≡ true)

abbrev NoSlash : List Text → Type 0
NoSlash = All (λ n. has_slash n ≡ false)

push_head-NoSlash :
    (c : ℕ) (ps : List Text) → (c == b'/') ≡ false → NoSlash ps → NoSlash (push_head c ps)
push_head-NoSlash c [] h v = (ground (arith, h), tt)
push_head-NoSlash c (p ∷ ps) h v = (ground (arith, h, v.0), v.1)

split-NoSlash : (s : Text) → NoSlash (split b'/' s)
split-NoSlash [] = (refl, tt)
split-NoSlash (c ∷ s) = elim (Bool-cases (c == b'/')) [
  | inl e ↦ rw e (refl, split-NoSlash s)
  | inr e ↦ rw e (push_head-NoSlash c (split b'/' s) e (split-NoSlash s))
]

drop_last-Names : (ns : List Text) → Names ns → Names (drop_last ns)
drop_last-Names [] v = tt
drop_last-Names (n ∷ []) v = tt
drop_last-Names (n ∷ m ∷ ns) v = (v.0, drop_last-Names (m ∷ ns) v.1)

add_name-Names :
    (names : List Text) (n : Text) → has_slash n ≡ false → Names names → Names (add_name names n)
add_name-Names names n h v = elim (Bool-cases (is_empty n || text_eq n (codes "."))) [
  | inl skip ↦ rw skip v
  | inr name ↦ elim (Bool-cases (text_eq n (codes ".."))) [
    | inl up ↦ rw (name, up) (drop_last-Names names v)
    | inr down ↦
        rw (name, down)
          (All-append (λ m. is_name m ≡ true) names (n ∷ []) v (ground (arith, name, down, h), tt))
  ]
]

clean_names-Names : (names ns : List Text) → NoSlash ns → Names names → Names (clean_names names ns)
unfolding clean_names
clean_names-Names names [] h v = v
clean_names-Names names (n ∷ ns) h v =
    clean_names-Names (add_name names n) ns h.1 (add_name-Names names n h.0 v)

-- Proper names are kept.
clean_names-keep : (names ns : List Text) → Names ns → clean_names names ns ≡ names ++ ns
unfolding clean_names
clean_names-keep names [] v = sym (append-nil names)
clean_names-keep names (n ∷ ns) v =
    let e : add_name names n ≡ names ++ n ∷ [] = ground (arith, v.0) in
    ap (λ a. clean_names a ns) e
    ∙ clean_names-keep (names ++ n ∷ []) ns v.1
    ∙ append_assoc names (n ∷ []) ns

clean_names-append :
    (names ns ms : List Text) → clean_names names (ns ++ ms) ≡ clean_names (clean_names names ns) ms
unfolding clean_names
clean_names-append names [] ms = refl
clean_names-append names (n ∷ ns) ms = clean_names-append (add_name names n) ns ms

push_head-append :
    (c : ℕ) (ps qs : List Text)
    → is_empty ps ≡ false
    → push_head c (ps ++ qs) ≡ push_head c ps ++ qs
push_head-append c [] qs h = absurd (ground (arith, h))
push_head-append c (p ∷ ps) qs h = refl

split-some : (s : Text) → is_empty (split b'/' s) ≡ false
split-some [] = refl
split-some (c ∷ s) = ground (arith, push_some c (split b'/' s))
  where
    push_some : (d : ℕ) (ps : List Text) → is_empty (push_head d ps) ≡ false
    push_some d [] = refl
    push_some d (p ∷ ps) = refl

split-append : (s t : Text) → split b'/' (s ++ b'/' ∷ t) ≡ split b'/' s ++ split b'/' t
split-append [] t = refl
split-append (c ∷ s) t = elim (Bool-cases (c == b'/')) [
  | inl e ↦ rw e (ap (λ ps. [] ∷ ps) (split-append s t))
  | inr e ↦ rw e (
      ap (push_head c) (split-append s t)
      ∙ push_head-append c (split b'/' s) (split b'/' t) (split-some s))
]

name_slash : (n : Text) → is_name n ≡ true → has_slash n ≡ false
name_slash n h = ground (arith, h)

split-name :
    (n rest : Text) (ns : List Text)
    → has_slash n ≡ false
    → split b'/' rest ≡ [] ∷ ns
    → split b'/' (n ++ rest) ≡ n ∷ ns
split-name [] rest ns h e = e
split-name (c ∷ n) rest ns h e =
    let d : (c == b'/') ≡ false = ground (arith, h) in
    rw d (ap (push_head c) (split-name n rest ns (ground (arith, h)) e))

split-path_of : (ns : List Text) → Names ns → split b'/' (path_of ns) ≡ [] ∷ ns
split-path_of [] v = refl
split-path_of (n ∷ ns) v =
    ap (λ ps. [] ∷ ps) (split-name n (path_of ns) ns (name_slash n v.0) (split-path_of ns v.1))

clean_names-rooted :
    (names ns : List Text) → Names ns → clean_names names (split b'/' (rooted ns)) ≡ names ++ ns
clean_names-rooted names [] v = unfold clean_names in sym (append-nil names)
clean_names-rooted names (n ∷ ns) v =
    ap (clean_names names) (split-path_of (n ∷ ns) v)
    ∙ (unfold clean_names in clean_names-keep names (n ∷ ns) v)

-- The names that a path of the window leads to.
abbrev pub names_of : Text → List Text
names_of rel = clean_names [] (split b'/' (b'/' ∷ rel))

names_of-Names : (rel : Text) → Names (names_of rel)
names_of-Names rel = clean_names-Names [] (split b'/' (b'/' ∷ rel)) (split-NoSlash (b'/' ∷ rel)) tt

join_paths-rooted :
    (r : Text) (rs ns : List Text)
    → Names (r ∷ rs)
    → Names ns
    → join_paths (path_of (r ∷ rs)) (rooted ns) ≡ path_of ((r ∷ rs) ++ ns)
unfolding join_paths
join_paths-rooted r rs ns v w =
    let root = path_of (r ∷ rs) in
    ap rooted (
      ap (clean_names []) (split-append root (rooted ns))
      ∙ clean_names-append [] (split b'/' root) (split b'/' (rooted ns))
      ∙ ap (λ ms. clean_names ms (split b'/' (rooted ns)))
          (ap (clean_names []) (split-path_of (r ∷ rs) v)
            ∙ (unfold clean_names in clean_names-keep [] (r ∷ rs) v))
      ∙ clean_names-rooted (r ∷ rs) ns w)

pub has_prefix-append : (s t : Text) → has_prefix (s ++ t) s ≡ true
has_prefix-append [] [] = refl
has_prefix-append [] (c ∷ t) = refl
has_prefix-append (c ∷ s) t = ground (arith, has_prefix-append s t)

path_of-append : (ns ms : List Text) → path_of (ns ++ ms) ≡ path_of ns ++ path_of ms
path_of-append [] ms = refl
path_of-append (n ∷ ns) ms =
    ap (λ t. b'/' ∷ n ++ t) (path_of-append ns ms)
    ∙ ap (λ t. b'/' ∷ t) (sym (append_assoc n (path_of ns) (path_of ms)))

-- A path below a worktree, or the worktree itself: names that each lead one level down.
abbrev pub Inside : Text → Text → Type 0
Inside worktree path = (ns : List Text) × Names ns × (path ≡ worktree ++ path_of ns)

-- Whatever the window asks for, with however many dots and slashes, if the worktree is a clean path
-- below the root, then the path that comes of it is that of the worktree followed by proper names
-- alone: the names that are left when the path is cleaned by itself. It is never refused.
pub resolve-Inside :
    (r : Text) (rs : List Text) (rel : Text)
    → Names (r ∷ rs)
    → (resolve (path_of (r ∷ rs)) rel ≡ ok (path_of (r ∷ rs) ++ path_of (names_of rel)))
      × Names (names_of rel)
unfolding resolve
resolve-Inside r rs rel v =
    let ns = names_of rel in
    let root = path_of (r ∷ rs) in
    let e : join_paths root (clean (b'/' ∷ rel)) ≡ root ++ path_of ns =
      (unfold clean in join_paths-rooted r rs ns v (names_of-Names rel))
      ∙ path_of-append (r ∷ rs) ns in
    (rw (e, has_prefix-append root (path_of ns)) refl, names_of-Names rel)
