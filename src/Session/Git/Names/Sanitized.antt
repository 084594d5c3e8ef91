-- ===== src/Session/Git/Names/Sanitized.antt =====
-- session/git/util.go: what sanitizeBranchName returns is a branch name, and is left alone.
use claude_squad_ide.Base.{
  ℕ, ◌≡◌, refl, ap, ◌∙◌, Bool, true, false, not, ◌&&◌, [], ◌∷◌, Text, keep, map, All, trim,
  trim_left, trim_right, push_unless, arith, Bool-cases, inl, inr, ◌==◌,
}
use claude_squad_ide.Session.Git.Names.{
  is_safe, dash_for_space, starts_dash, squeeze, is_edge, sanitize_branch_name,
}

-- No dash follows a dash.
abbrev pub single_dashes : Text → Bool
single_dashes [] = true
single_dashes (c ∷ s) = not (c == b'-' && starts_dash s) && single_dashes s

-- Safe characters only, no two dashes in a row, and no dash or slash at either end.
abbrev pub IsBranchName : Text → Type 0
IsBranchName t = All (λ c. is_safe c ≡ true) t × (single_dashes t ≡ true) × (trim is_edge t ≡ t)

keep-safe : (s : Text) → All (λ c. is_safe c ≡ true) (keep is_safe s)
keep-safe [] = tt
keep-safe (c ∷ s) = elim (Bool-cases (is_safe c)) [
  | inl e ↦ rw e (e, keep-safe s)
  | inr e ↦ rw e (keep-safe s)
]

squeeze-safe : (s : Text) → All (λ c. is_safe c ≡ true) s → All (λ c. is_safe c ≡ true) (squeeze s)
squeeze-safe [] a = tt
squeeze-safe (c ∷ s) a = elim (Bool-cases (c == b'-' && starts_dash s)) [
  | inl e ↦ rw e (squeeze-safe s a.1)
  | inr e ↦ rw e (a.0, squeeze-safe s a.1)
]

starts_dash-squeeze : (s : Text) → starts_dash (squeeze s) ≡ starts_dash s
starts_dash-squeeze [] = refl
starts_dash-squeeze (c ∷ s) = ground (arith, starts_dash-squeeze s)

single_dashes-squeeze : (s : Text) → single_dashes (squeeze s) ≡ true
single_dashes-squeeze [] = refl
single_dashes-squeeze (c ∷ s) = ground (arith, single_dashes-squeeze s, starts_dash-squeeze s)

-- What is trimmed away at one end, or at the other, leaves both properties.
trim_left-keeps :
    (s : Text)
    → All (λ c. is_safe c ≡ true) s
    → single_dashes s ≡ true
    → All (λ c. is_safe c ≡ true) (trim_left is_edge s)
      × (single_dashes (trim_left is_edge s) ≡ true)
trim_left-keeps [] a d = (tt, refl)
trim_left-keeps (c ∷ s) a d = elim (Bool-cases (is_edge c)) [
  | inl e ↦ rw e (trim_left-keeps s a.1 (ground (arith, d)))
  | inr e ↦ rw e (a, d)
]

starts_dash-push_unless :
    (b : Bool) (c : ℕ) (s : Text) → starts_dash (push_unless b c s) ≡ true → (c == b'-') ≡ true
starts_dash-push_unless true c [] h = cc
starts_dash-push_unless false c [] h = h
starts_dash-push_unless b c (d ∷ s) h = h

push_unless-keeps :
    (b : Bool) (c : ℕ) (s : Text)
    → is_safe c ≡ true
    → All (λ c. is_safe c ≡ true) s
    → (c == b'-' && starts_dash s) ≡ false
    → single_dashes s ≡ true
    → All (λ c. is_safe c ≡ true) (push_unless b c s) × (single_dashes (push_unless b c s) ≡ true)
push_unless-keeps true c [] p a n d = (tt, refl)
push_unless-keeps false c [] p a n d = ((p, tt), ground (arith, n))
push_unless-keeps b c (e ∷ s) p a n d = ((p, a), ground (arith, n, d))

starts_dash-trim_right :
    (s : Text) → starts_dash (trim_right is_edge s) ≡ true → starts_dash s ≡ true
starts_dash-trim_right [] h = h
starts_dash-trim_right (c ∷ s) h = starts_dash-push_unless (is_edge c) c (trim_right is_edge s) h

trim_right-keeps :
    (s : Text)
    → All (λ c. is_safe c ≡ true) s
    → single_dashes s ≡ true
    → All (λ c. is_safe c ≡ true) (trim_right is_edge s)
      × (single_dashes (trim_right is_edge s) ≡ true)
trim_right-keeps [] a d = (tt, refl)
trim_right-keeps (c ∷ s) a d =
    let r = trim_right-keeps s a.1 (ground (arith, d)) in
    push_unless-keeps (is_edge c) c (trim_right is_edge s) a.0 r.0
      (ground (arith, d, starts_dash-trim_right s)) r.1

-- Whether a text starts with a character that is trimmed.
abbrev starts : (ℕ → Bool) → Text → Bool
starts p [] = false
starts p (c ∷ s) = p c

module _ (p : ℕ → Bool) where
  starts-trim_left : (s : Text) → starts p (trim_left p s) ≡ false
  starts-trim_left [] = refl
  starts-trim_left (c ∷ s) = elim (Bool-cases (p c)) [
    | inl e ↦ rw e (starts-trim_left s)
    | inr e ↦ rw e e
  ]

  trim_left-none : (s : Text) → starts p s ≡ false → trim_left p s ≡ s
  trim_left-none [] h = refl
  trim_left-none (c ∷ s) h = rw h refl

  starts-push_unless :
      (b : Bool) (c : ℕ) (s : Text) → p c ≡ false → starts p (push_unless b c s) ≡ false
  starts-push_unless true c [] h = refl
  starts-push_unless false c [] h = h
  starts-push_unless b c (d ∷ s) h = h

  starts-trim_right : (s : Text) → starts p s ≡ false → starts p (trim_right p s) ≡ false
  starts-trim_right [] h = refl
  starts-trim_right (c ∷ s) h = starts-push_unless (p c) c (trim_right p s) h

  trim_right-push_unless :
      (c : ℕ) (s : Text)
      → trim_right p s ≡ s
      → trim_right p (push_unless (p c) c s) ≡ push_unless (p c) c s
  trim_right-push_unless c [] h = elim (Bool-cases (p c)) [
    | inl e ↦ rw e refl
    | inr e ↦ rw (e, e) refl
  ]
  trim_right-push_unless c (d ∷ s) h = ap (push_unless (p c) c) h

  trim_right-twice : (s : Text) → trim_right p (trim_right p s) ≡ trim_right p s
  trim_right-twice [] = refl
  trim_right-twice (c ∷ s) = trim_right-push_unless c (trim_right p s) (trim_right-twice s)

  trim-twice : (s : Text) → trim p (trim p s) ≡ trim p s
  trim-twice s =
      ap (trim_right p)
        (trim_left-none (trim p s) (starts-trim_right (trim_left p s) (starts-trim_left s)))
      ∙ trim_right-twice (trim_left p s)

-- The result of sanitizing any text is a branch name, whatever the lower case of a text is.
pub sanitize_branch_name-IsBranchName :
    (to_lower : Text → Text) (s : Text) → IsBranchName (sanitize_branch_name to_lower s)
unfolding sanitize_branch_name
sanitize_branch_name-IsBranchName to_lower s =
    let t = keep is_safe (map dash_for_space (to_lower s)) in
    let l =
      trim_left-keeps (squeeze t) (squeeze-safe t (keep-safe (map dash_for_space (to_lower s))))
        (single_dashes-squeeze t) in
    let r = trim_right-keeps (trim_left is_edge (squeeze t)) l.0 l.1 in
    (r.0, r.1, trim-twice is_edge (squeeze t))

dash_for_space-safe : (s : Text) → All (λ c. is_safe c ≡ true) s → map dash_for_space s ≡ s
dash_for_space-safe [] a = refl
dash_for_space-safe (c ∷ s) a =
    let e : dash_for_space c ≡ c = ground (arith, a.0) in rw (e, dash_for_space-safe s a.1) refl

keep_safe_only : (s : Text) → All (λ c. is_safe c ≡ true) s → keep is_safe s ≡ s
keep_safe_only [] a = refl
keep_safe_only (c ∷ s) a = rw (a.0, keep_safe_only s a.1) refl

squeeze-single : (s : Text) → single_dashes s ≡ true → squeeze s ≡ s
squeeze-single [] d = refl
squeeze-single (c ∷ s) d =
    let e : (c == b'-' && starts_dash s) ≡ false = ground (arith, d) in
    rw e (ap (λ t. c ∷ t) (squeeze-single s (ground (arith, d))))

sanitize_branch_name-fixed :
    (to_lower : Text → Text)
    → ((t : Text) → All (λ c. is_safe c ≡ true) t → to_lower t ≡ t)
    → (t : Text) → IsBranchName t
    → sanitize_branch_name to_lower t ≡ t
unfolding sanitize_branch_name
sanitize_branch_name-fixed to_lower fixed t v =
    rw (fixed t v.0, dash_for_space-safe t v.0, keep_safe_only t v.0, squeeze-single t v.1) v.2

-- If the lower case of a text of safe characters is that text, sanitizing twice is sanitizing once.
pub sanitize_branch_name_twice :
    (to_lower : Text → Text)
    → ((t : Text) → All (λ c. is_safe c ≡ true) t → to_lower t ≡ t)
    → (s : Text)
    → sanitize_branch_name to_lower (sanitize_branch_name to_lower s)
      ≡ sanitize_branch_name to_lower s
sanitize_branch_name_twice to_lower fixed s =
    sanitize_branch_name-fixed to_lower fixed (sanitize_branch_name to_lower s)
      (sanitize_branch_name-IsBranchName to_lower s)
