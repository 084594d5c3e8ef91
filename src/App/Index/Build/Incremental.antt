-- ===== src/App/Index/Build/Incremental.antt =====
-- app/indexer_treesitter.go: the symbols of each file after the changed ones are parsed again.
use claude_squad_ide.Base.{
  ◌≡◌, refl, sym, ap, ◌∙◌, Bool, true, false, not, ◌&&◌, ◌||◌, List, [], ◌∷◌, Option, none, some,
  Text, text_eq, text_eq_iff, Assoc, lookup, lookup-insert, if_false, Bool-cases, inl, inr, arith,
  if◌then◌else◌,
}
use claude_squad_ide.App.CallGraph.{or_nil}
use claude_squad_ide.App.CallGraph.DeadCode.{Symbol}
use claude_squad_ide.App.Index.Build.{
  Tree, contains_file, parse_file, symbols_in, put, parse_changed, is_kept, keep_files,
  new_file_symbols,
}

-- What a full build finds in a file.
abbrev pub found_in : Tree → Text → Option (List Symbol)
found_in t f = symbols_in (parse_file t f)

abbrev or_old : Option (List Symbol) → Option (List Symbol) → Option (List Symbol)
or_old none old = old
or_old (some syms) old = some syms

lookup-keep_files :
    (p : Text → Bool) (f : Text) (m : Assoc (List Symbol))
    → lookup f (keep_files p m) ≡ (if p f then lookup f m else none)
unfolding keep_files lookup
lookup-keep_files p f [] = ground arith
lookup-keep_files p f ((g, syms) ∷ m) = elim (Bool-cases (text_eq g f)) [
  | inl e ↦ ground (arith, lookup-keep_files p f m, e, ap p ((text_eq_iff g f).0 e))
  | inr n ↦ ground (arith, lookup-keep_files p f m, n)
]

lookup-put_option :
    (g f : Text) (o : Option (List Symbol)) (m : Assoc (List Symbol))
    → lookup f (put g o m) ≡ (if text_eq g f then or_old o (lookup f m) else lookup f m)
lookup-put_option g f none m = ground arith
lookup-put_option g f (some syms) m = lookup-insert g f syms m

lookup-put :
    (t : Tree) (g f : Text) (m : Assoc (List Symbol))
    → lookup f (put g (found_in t g) m)
      ≡ (if text_eq g f then or_old (found_in t f) (lookup f m) else lookup f m)
lookup-put t g f m =
    let both =
      λ (x : Text). if text_eq g f then or_old (found_in t x) (lookup f m) else lookup f m in
    lookup-put_option g f (found_in t g) m ∙ elim (Bool-cases (text_eq g f)) [
      | inl e ↦ ap both ((text_eq_iff g f).0 e)
      | inr n ↦ if_false (text_eq g f) _ _ n ∙ sym (if_false (text_eq g f) _ _ n)
    ]

or_old_twice : (o old : Option (List Symbol)) → or_old o (or_old o old) ≡ or_old o old
or_old_twice none old = refl
or_old_twice (some syms) old = refl

either_file :
    (b c : Bool) (o old : Option (List Symbol))
    → (if c then or_old o (if b then or_old o old else old) else if b then or_old o old else old)
      ≡ (if b || c then or_old o old else old)
either_file true true o old = or_old_twice o old
either_file true false o old = refl
either_file false true o old = refl
either_file false false o old = refl

lookup-parse_changed :
    (t : Tree) (f : Text) (gs : List Text) (m : Assoc (List Symbol))
    → lookup f (parse_changed t gs m)
      ≡ (if contains_file f gs then or_old (found_in t f) (lookup f m) else lookup f m)
unfolding parse_changed
lookup-parse_changed t f [] m = refl
lookup-parse_changed t f (g ∷ gs) m =
    let found = found_in t f in
    let after : Option (List Symbol) → Option (List Symbol) =
      λ o. if contains_file f gs then or_old found o else o in
    lookup-parse_changed t f gs (put g (found_in t g) m)
    ∙ ap after (lookup-put t g f m)
    ∙ either_file (text_eq g f) (contains_file f gs) found (lookup f m)

-- The symbols of a file after a build, by whether it is there and whether it has changed.
found_after :
    (current changed : Bool) (found old : Option (List Symbol))
    → (changed ≡ true → current ≡ true)
    → (current ≡ true → changed ≡ false → or_nil old ≡ or_nil found)
    → or_nil (
        if changed
        then or_old found (if current && not changed then old else none)
        else if current && not changed
        then old
        else none)
      ≡ (if current then or_nil found else [])
found_after true true none old s h = refl
found_after true true (some syms) old s h = refl
found_after true false found old s h = h refl refl
found_after false true found old s h = absurd (ground (arith, s refl))
found_after false false found old s h = refl

pub new_file_symbols-found :
    (t : Tree) (old : Assoc (List Symbol)) (current changed : List Text) (f : Text)
    → (contains_file f changed ≡ true → contains_file f current ≡ true)
    → (contains_file f current ≡ true
        → contains_file f changed ≡ false
        → or_nil (lookup f old) ≡ or_nil (found_in t f))
    → or_nil (lookup f (new_file_symbols t old current changed))
      ≡ (if contains_file f current then or_nil (found_in t f) else [])
unfolding new_file_symbols
new_file_symbols-found t old current changed f s h =
    let found = found_in t f in
    let after : Option (List Symbol) → List Symbol =
      λ o. or_nil (if contains_file f changed then or_old found o else o) in
    ap or_nil (lookup-parse_changed t f changed (keep_files (is_kept current changed) old))
    ∙ ap after (lookup-keep_files (is_kept current changed) f old)
    ∙ found_after (contains_file f current) (contains_file f changed) found (lookup f old) s h
