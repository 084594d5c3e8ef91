-- ===== src/Pty/Manager/Ids.antt =====
-- pty/manager.go, type Manager: an identifier is never given twice.
use claude_squad_ide.Base.{
  ℕ, suc, ◌≤◌, ◌<◌, ◌≡◌, ◌≢◌, refl, sym, ◌∙◌, subst, All, List, [], ◌∷◌, ◌++◌, Option, none, some,
  arith, Text, codes, itoa, itoa-injective, Assoc, lookup, insert, delete, lookup-insert,
  lookup-delete, text_eq, text_eq_iff, Option-cases, Bool-cases, inl, inr, if◌then◌else◌,
}
use claude_squad_ide.Pty.Session
use claude_squad_ide.Pty.Session.{Session, Result, ok, err, not_found}
use claude_squad_ide.Pty.Manager.{
  SpawnOptions, Command, Manager, session_id, command, spawn, kill, finish_spawn, or_default,
}

-- Every session is stored under `session-n` for an `n` up to the counter.
abbrev pub Numbered : ℕ → Assoc Session → Type 0
Numbered c [] = Unit {0}
Numbered c ((k, s) ∷ m) = ((n : ℕ) × (n ≤ c) × (k ≡ session_id n)) × Numbered c m

abbrev pub IsNumbered : Manager → Type 0
IsNumbered m = Numbered m.counter m.sessions

append-injective : (p s t : Text) → p ++ s ≡ p ++ t → s ≡ t
append-injective [] s t e = e
append-injective (c ∷ p) s t e = append-injective p s t (cc)

session_id-injective : (n k : ℕ) → session_id n ≡ session_id k → n ≡ k
unfolding session_id
session_id-injective n k e =
    itoa-injective n k (append-injective (codes "session-") (itoa n) (itoa k) e)

Numbered-fresh :
    (c n : ℕ) (m : Assoc Session) → Numbered c m → c < n → lookup (session_id n) m ≡ none
unfolding lookup
Numbered-fresh c n [] v h = refl
Numbered-fresh c n ((k, s) ∷ m) v h = ground (
  arith,
  v.0,
  text_eq_iff k (session_id n),
  session_id-injective n v.0.0,
  Numbered-fresh c n m v.1 h,
)

Numbered-mono : (c d : ℕ) (m : Assoc Session) → c ≤ d → Numbered c m → Numbered d m
Numbered-mono c d [] h v = tt
Numbered-mono c d ((k, s) ∷ m) h v =
    ((v.0.0, omega (arith, v.0.1), v.0.2), Numbered-mono c d m h v.1)

Numbered-insert :
    (c n : ℕ) (s : Session) (m : Assoc Session)
    → n ≤ c
    → Numbered c m
    → Numbered c (insert (session_id n) s m)
unfolding insert
Numbered-insert c n s [] h v = ((n, h, refl), tt)
Numbered-insert c n s ((k, t) ∷ m) h v = elim (Bool-cases (text_eq k (session_id n))) [
  | inl e ↦ rw e ((n, h, refl), v.1)
  | inr e ↦ rw e (v.0, Numbered-insert c n s m h v.1)
]

Numbered-delete : (c : ℕ) (k : Text) (m : Assoc Session) → Numbered c m → Numbered c (delete k m)
unfolding delete
Numbered-delete c k [] v = tt
Numbered-delete c k ((j, t) ∷ m) v = elim (Bool-cases (text_eq j k)) [
  | inl e ↦ rw e (Numbered-delete c k m v.1)
  | inr e ↦ rw e (v.0, Numbered-delete c k m v.1)
]

finish_spawn-IsNumbered :
    (m : Manager) (r : Option Text) → IsNumbered m → IsNumbered (finish_spawn m r).1
finish_spawn-IsNumbered m (some e) v = v
finish_spawn-IsNumbered m none v =
    Numbered-insert (suc m.counter) (suc m.counter) _ m.sessions (omega arith)
      (Numbered-mono m.counter (suc m.counter) m.sessions (omega arith) v)

-- What a start of a process promises: no session had the new identifier, it now leads to a fresh
-- session, and the other sessions are as before.
abbrev pub Started : Manager → Result Text × Manager → Type 0
Started m (ok id, m') =
    (lookup id m.sessions ≡ none)
    × ((j : Text)
        → lookup j m'.sessions
          ≡ (if text_eq id j then some (Session.new_session id) else lookup j m.sessions))
Started m (err e, m') = m' ≡ m

finish_spawn-Started : (m : Manager) (r : Option Text) → IsNumbered m → Started m (finish_spawn m r)
finish_spawn-Started m (some e) v = refl
finish_spawn-Started m none v = (
  Numbered-fresh m.counter (suc m.counter) m.sessions v (omega arith),
  λ j. lookup-insert (session_id (suc m.counter)) j _ m.sessions,
)

module _ (environ : List Text) (start : Command → ℕ → ℕ → Option Text) where
  -- Starting a process in a manager whose sessions are numbered up to its counter either fails and
  -- changes nothing, or gives an identifier that no session had, adds a fresh session under it and
  -- keeps all others; the sessions stay numbered.
  pub spawn-Started :
      (program : Text) (args : List Text) (opts : SpawnOptions) (m : Manager)
      → IsNumbered m
      → Started m (spawn environ start program args opts m)
        × IsNumbered (spawn environ start program args opts m).1
  unfolding spawn
  spawn-Started program args opts m v =
      let r =
        start (command environ program args opts) (or_default opts.rows 24)
          (or_default opts.cols 80) in
      (finish_spawn-Started m r v, finish_spawn-IsNumbered m r v)

pub kill-IsNumbered : (id : Text) (m : Manager) → IsNumbered m → IsNumbered (kill id m).1
unfolding kill
kill-IsNumbered id m v = elim (Option-cases (lookup id m.sessions)) [
  | inl e ↦ rw e v
  | inr (s, e) ↦ rw e (Numbered-delete m.counter id m.sessions v)
]

-- Killing closes the session of that identifier and takes away its entry alone; an unknown
-- identifier is an error that changes nothing.
pub kill_lem :
    (id : Text) (m : Manager)
    → ((s : Session)
        → lookup id m.sessions ≡ some s
        → ((kill id m).0 ≡ ok (Session.close s))
          × ((j : Text)
              → lookup j (kill id m).1.sessions
                ≡ (if text_eq id j then none else lookup j m.sessions)))
      × (lookup id m.sessions ≡ none → kill id m ≡ (err (not_found id), m))
unfolding kill
kill_lem id m = (λ s e. (rw e refl, λ j. rw e (lookup-delete id j m.sessions)), λ e. rw e refl)

-- The calls that change the map, and the identifiers that they give out in turn.
pub data Action : Type 0 where
  spawns : Text → List Text → SpawnOptions → Action
  kills : Text → Action

abbrev given : Result Text → List Text
given (ok id) = id ∷ []
given (err e) = []

-- Each is `session-n` for an `n` above `c`.
abbrev Above : ℕ → List Text → Type 0
Above c = All (λ k. (n : ℕ) × (c < n) × (k ≡ session_id n))

abbrev pub Distinct : List Text → Type 0
Distinct [] = Unit {0}
Distinct (k ∷ ks) = All (λ j. j ≢ k) ks × Distinct ks

module _ (environ : List Text) (start : Command → ℕ → ℕ → Option Text) where
  unfoldable pub history : List Action → Manager → List Text
  unfolding spawn kill
  history [] m = []
  history (spawns program args opts ∷ acts) m =
      let (r, m') = spawn environ start program args opts m in given r ++ history acts m'
  history (kills id ∷ acts) m = history acts (kill id m).1

  Above-mono : (c d : ℕ) (ks : List Text) → c ≤ d → Above d ks → Above c ks
  Above-mono c d [] h a = tt
  Above-mono c d (k ∷ ks) h a = ((a.0.0, omega (arith, a.0.1), a.0.2), Above-mono c d ks h a.1)

  Above-ne : (c : ℕ) (ks : List Text) → Above c ks → All (λ j. j ≢ session_id c) ks
  Above-ne c [] a = tt
  Above-ne c (k ∷ ks) a = (
    λ e. absurd (omega (arith, a.0.1, session_id-injective a.0.0 c (sym a.0.2 ∙ e))),
    Above-ne c ks a.1,
  )

  counter-kill : (id : Text) (m : Manager) → (kill id m).1.counter ≡ m.counter
  unfolding kill
  counter-kill id m = ground arith

  given-Distinct :
      (m : Manager) (r : Option Text) (ks : List Text)
      → Above (finish_spawn m r).1.counter ks
      → Distinct ks
      → Above m.counter (given (finish_spawn m r).0 ++ ks)
        × Distinct (given (finish_spawn m r).0 ++ ks)
  given-Distinct m (some e) ks a d = (a, d)
  given-Distinct m none ks a d = (
    ((suc m.counter, omega arith, refl), Above-mono m.counter (suc m.counter) ks (omega arith) a),
    (Above-ne (suc m.counter) ks a, d),
  )

  history-Above :
      (acts : List Action) (m : Manager)
      → Above m.counter (history acts m) × Distinct (history acts m)
  unfolding history spawn
  history-Above [] m = (tt, tt)
  history-Above (spawns program args opts ∷ acts) m =
      let r =
        start (command environ program args opts) (or_default opts.rows 24)
          (or_default opts.cols 80) in
      let ih = history-Above acts (finish_spawn m r).1 in given-Distinct m r _ ih.0 ih.1
  history-Above (kills id ∷ acts) m =
      let ih = history-Above acts (kill id m).1 in
      (subst (λ c. Above c (history acts (kill id m).1)) (counter-kill id m) ih.0, ih.1)

  -- Whatever is started and killed in whatever order, no identifier is given twice.
  pub history-Distinct : (acts : List Action) (m : Manager) → Distinct (history acts m)
  history-Distinct acts m = (history-Above acts m).1
