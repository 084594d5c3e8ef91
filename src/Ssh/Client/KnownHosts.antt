-- ===== src/Ssh/Client/KnownHosts.antt =====
-- ssh/client.go: the key algorithms that the file known_hosts has for a host.
use claude_squad_ide.Base.{
  ℕ, ◌≡◌, refl, ap, ◌∙◌, sym, Bool, Bool-cases, inl, inr, true, false, not, ◌&&◌, ◌||◌, List, [],
  ◌∷◌, ◌++◌, Option, none, some, Text, codes, itoa, split, fields, trim_space, has_prefix, text_eq,
  text_eq_iff, is_empty, any, arith, if◌then◌else◌,
}

abbrev pub known_types : List Text
known_types =
    codes "ssh-ed25519"
    ∷ codes "ssh-rsa"
    ∷ codes "ecdsa-sha2-nistp256"
    ∷ codes "ecdsa-sha2-nistp384"
    ∷ codes "ecdsa-sha2-nistp521"
    ∷ codes "sk-ssh-ed25519@openssh.com"
    ∷ codes "sk-ecdsa-sha2-nistp256@openssh.com"
    ∷ []

abbrev pub listed : Text → List Text → Bool
listed t ts = any (λ u. text_eq u t) ts

abbrev pub is_target : Text → ℕ → Text → Bool
is_target host port h =
    text_eq h host || text_eq h (codes "[" ++ (host ++ (codes "]:" ++ itoa port)))

-- The algorithm of a line's fields; its name is that of the type of the key.
abbrev pub fields_algorithm : (Text → Bool) → List Text → Option Text
fields_algorithm target (hosts ∷ key_type ∷ key ∷ rest) =
    if any target (split b',' hosts) && listed key_type known_types then some key_type else none
fields_algorithm target _ = none

unfoldable pub line_algorithm : (Text → Bool) → Text → Option Text
line_algorithm target line =
    let t = trim_space line in
    if is_empty t || has_prefix t (codes "#") || has_prefix t (codes "@")
    then none
    else fields_algorithm target (fields t)

-- The map `seen` has the elements of `algos`.
abbrev pub add_new : Option Text → List Text → List Text
add_new none algos = algos
add_new (some a) algos = if listed a algos then algos else algos ++ a ∷ []

unfoldable pub collect : (Text → Option Text) → List Text → List Text → List Text
collect algorithm algos [] = algos
collect algorithm algos (l ∷ ls) = collect algorithm (add_new (algorithm l) algos) ls

-- A file that cannot be read gives no algorithms.
unfoldable pub host_key_algorithms : Text → Text → ℕ → List Text
unfolding collect line_algorithm
host_key_algorithms contents host port =
    collect (line_algorithm (is_target host port)) [] (split b'\n' contents)

abbrev pub gives : Text → Option Text → Bool
gives a none = false
gives a (some b) = text_eq b a

-- The fields of a line of known_hosts for a host, with a key of the type `a`.
abbrev pub names_host : Text → ℕ → Text → List Text → Bool
names_host host port a (hosts ∷ key_type ∷ key ∷ rest) =
    text_eq key_type a
    && any (λ h. text_eq h host || text_eq h (codes "[" ++ (host ++ (codes "]:" ++ itoa port))))
        (split b',' hosts)
names_host host port a _ = false

-- The line is no comment and no marker, and its fields are for the host.
abbrev pub offers : Text → ℕ → Text → Text → Bool
offers host port a line =
    not (has_prefix (trim_space line) (codes "#"))
    && (not (has_prefix (trim_space line) (codes "@"))
        && names_host host port a (fields (trim_space line)))

-- The types of keys that are known.
unfoldable pub is_known_type : Text → Bool
is_known_type a =
    any (λ u. text_eq u a)
      (codes "ssh-ed25519"
        ∷ codes "ssh-rsa"
        ∷ codes "ecdsa-sha2-nistp256"
        ∷ codes "ecdsa-sha2-nistp384"
        ∷ codes "ecdsa-sha2-nistp521"
        ∷ codes "sk-ssh-ed25519@openssh.com"
        ∷ codes "sk-ecdsa-sha2-nistp256@openssh.com"
        ∷ [])

listed-known_types : (a : Text) → listed a known_types ≡ is_known_type a
unfolding is_known_type
listed-known_types a = refl

gives_if :
    (a y : Text) (t k : Bool)
    → gives a (if t && k then some y else none) ≡ (k && (text_eq y a && t))
gives_if a y true true = ground arith
gives_if a y true false = refl
gives_if a y false true = ground arith
gives_if a y false false = refl

both_false : (k l t : Bool) → (k && (false && t)) ≡ (l && (false && t))
both_false true true t = refl
both_false true false t = refl
both_false false true t = refl
both_false false false t = refl

gives-known :
    (a y : Text) (t : Bool)
    → gives a (if t && listed y known_types then some y else none)
      ≡ (is_known_type a && (text_eq y a && t))
gives-known a y t = gives_if a y t (listed y known_types) ∙ elim (Bool-cases (text_eq y a)) [
  | inl same ↦
      ap (λ k. k && (text_eq y a && t))
        (ap (λ z. listed z known_types) ((text_eq_iff y a).0 same) ∙ listed-known_types a)
  | inr other ↦
      ap (λ b. listed y known_types && (b && t)) other
      ∙ both_false (listed y known_types) (is_known_type a) t
      ∙ ap (λ b. is_known_type a && (b && t)) (sym other)
]

none_given : (k : Bool) → false ≡ (k && false)
none_given true = refl
none_given false = refl

gives-fields :
    (host a : Text) (port : ℕ) (fs : List Text)
    → gives a (fields_algorithm (is_target host port) fs)
      ≡ (is_known_type a && names_host host port a fs)
gives-fields host a port [] = none_given (is_known_type a)
gives-fields host a port (x ∷ []) = none_given (is_known_type a)
gives-fields host a port (x ∷ y ∷ []) = none_given (is_known_type a)
gives-fields host a port (x ∷ y ∷ z ∷ rest) =
    gives-known a y (any (is_target host port) (split b',' x))

fields-empty :
    (host a : Text) (port : ℕ) (t : Text)
    → is_empty t ≡ true
    → names_host host port a (fields t) ≡ false
fields-empty host a port [] e = refl
fields-empty host a port (c ∷ t) e = cc

gives_unless :
    (a : Text) (e h m k w : Bool) (o : Option Text)
    → (e ≡ true → w ≡ false)
    → gives a o ≡ (k && w)
    → gives a (if e || h || m then none else o) ≡ (k && (not h && (not m && w)))
gives_unless a e true m k w o f g = ground arith
gives_unless a e false true k w o f g = ground arith
gives_unless a false false false k w o f g = g
gives_unless a true false false k w o f g = none_given k ∙ ap (λ b. k && b) (sym (f refl))

gives-line :
    (host a : Text) (port : ℕ) (l : Text)
    → gives a (line_algorithm (is_target host port) l) ≡ (is_known_type a && offers host port a l)
unfolding line_algorithm
gives-line host a port l =
    let t = trim_space l in
    gives_unless a (is_empty t) (has_prefix t (codes "#")) (has_prefix t (codes "@"))
      (is_known_type a) (names_host host port a (fields t))
      (fields_algorithm (is_target host port) (fields t)) (fields-empty host a port t)
      (gives-fields host a port (fields t))

any-both :
    (k : Bool) (f g : Text → Bool) (ls : List Text)
    → ((l : Text) → f l ≡ (k && g l))
    → any f ls ≡ (k && any g ls)
any-both k f g [] h = none_given k
any-both k f g (l ∷ ls) h = ground (arith, h l, any-both k f g ls h)

abbrev pub NoRepeats : List Text → Type 0
NoRepeats [] = Unit {0}
NoRepeats (a ∷ algos) = (listed a algos ≡ false) × NoRepeats algos

listed-append : (a : Text) (s t : List Text) → listed a (s ++ t) ≡ (listed a s || listed a t)
listed-append a [] t = refl
listed-append a (b ∷ s) t = ground (arith, listed-append a s t)

NoRepeats-append :
    (a : Text) (algos : List Text)
    → listed a algos ≡ false
    → NoRepeats algos
    → NoRepeats (algos ++ a ∷ [])
NoRepeats-append a [] h v = (refl, tt)
NoRepeats-append a (b ∷ algos) h v = (
  ground (arith, h, v.0, listed-append b algos (a ∷ []), text_eq_iff a b, text_eq_iff b a),
  NoRepeats-append a algos (ground (arith, h)) v.1,
)

add_new-NoRepeats :
    (o : Option Text) (algos : List Text) → NoRepeats algos → NoRepeats (add_new o algos)
add_new-NoRepeats none algos v = v
add_new-NoRepeats (some a) algos v = ground (arith, NoRepeats-append a algos, v)

listed-add_new :
    (a : Text) (o : Option Text) (algos : List Text)
    → listed a (add_new o algos) ≡ (listed a algos || gives a o)
listed-add_new a none algos = ground arith
listed-add_new a (some b) algos = ground (arith, listed-append a algos (b ∷ []), text_eq_iff b a)

collect_lem :
    (algorithm : Text → Option Text) (ls algos : List Text)
    → NoRepeats algos
    → NoRepeats (collect algorithm algos ls)
      × ((a : Text)
          → listed a (collect algorithm algos ls)
            ≡ (listed a algos || any (λ l. gives a (algorithm l)) ls))
unfolding collect
collect_lem algorithm [] algos v = (v, λ a. ground arith)
collect_lem algorithm (l ∷ ls) algos v =
    let ih =
      collect_lem algorithm ls (add_new (algorithm l) algos)
        (add_new-NoRepeats (algorithm l) algos v) in
    (ih.0, λ a. ground (arith, ih.1 a, listed-add_new a (algorithm l) algos))

-- The list has no algorithm twice, and has exactly those of the known types that some line of the file
-- offers: a line that is no comment and no marker, has three fields, names the host among its hosts,
-- alone or as `[host]:port`, and has a key of that type.
pub host_key_algorithms_lem :
    (contents host : Text) (port : ℕ)
    → NoRepeats (host_key_algorithms contents host port)
      × ((a : Text)
          → listed a (host_key_algorithms contents host port)
            ≡ (is_known_type a && any (offers host port a) (split b'\n' contents)))
unfolding host_key_algorithms
host_key_algorithms_lem contents host port =
    let r = collect_lem (line_algorithm (is_target host port)) (split b'\n' contents) [] tt in
    (
      r.0,
      λ a.
          r.1 a
          ∙ any-both (is_known_type a) _ (offers host port a) (split b'\n' contents)
              (gives-line host a port),
    )
