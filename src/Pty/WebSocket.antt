-- ===== src/Pty/WebSocket.antt =====
-- pty/websocket.go and pty/registry.go: how a terminal client finds its session and what it is sent.
--
-- The HTTP upgrade and the socket are the library's: a message written to the client is an element
-- of a list, a message from it an argument.
pub mod Replay
use claude_squad_ide.Base.{
  ℕ, Bool, true, false, ◌&&◌, List, [], ◌∷◌, ◌++◌, Option, none, some, Text, codes, split, text_eq,
  trim_prefix, is_empty, if◌then◌else◌,
}
use claude_squad_ide.Pty.Session
use claude_squad_ide.Pty.Session.{Session, Error, Result, ok, err, missing_session_id, not_found}

abbrev first_part : List Text → Text
first_part [] = []
first_part (p ∷ ps) = p

-- The identifier in the path `/ws/<id>/...`.
unfoldable pub session_of_path : Text → Result Text
session_of_path path =
    let id = first_part (split b'/' (trim_prefix path (codes "/ws/"))) in
    if is_empty id then err missing_session_id else ok id

abbrev or_not_found {ℓ} : {A : Type ℓ} → Text → Option A → Result A
or_not_found id none = err (not_found id)
or_not_found id (some s) = ok s

abbrev find_session {ℓ} : {A : Type ℓ} → (Text → Option A) → Result Text → Result A
find_session get (err e) = err e
find_session get (ok id) = or_not_found id (get id)

-- The checks of `handleWS` before the upgrade.
unfoldable pub route {ℓ} : {A : Type ℓ} → (Text → Option A) → Text → Result A
unfolding session_of_path
route get path = find_session get (session_of_path path)

-- The first messages to the client, its channel, and the session. `between` is what the session's
-- other goroutines do after the snapshot is taken and before the client subscribes.
unfoldable pub attach : (Session → Session) → Session → List Text × (ℕ × Session)
unfolding Session.subscribe Session.get_snapshot
attach between s =
    let snapshot = Session.get_snapshot s in
    (if is_empty snapshot then [] else snapshot ∷ [], Session.subscribe (between s))

pub record ResizeMsg : Type 0 where
  pub kind : Text
  pub rows : ℕ
  pub cols : ℕ

pub data Input : Type 0 where
  resizes : ℕ → ℕ → Input
  keys : Text → Input

abbrev read_resize : Text → Option ResizeMsg → Input
read_resize msg none = keys msg
read_resize msg (some rm) =
    if text_eq rm.kind (codes "resize") then resizes rm.rows rm.cols else keys msg

-- What a message from the client asks for; `unmarshal` is `json.Unmarshal` into a `resizeMsg`.
unfoldable pub read_message : (Text → Option ResizeMsg) → Bool → Text → Input
read_message unmarshal is_text msg = if is_text then read_resize msg (unmarshal msg) else keys msg

-- `CompositeRegistry.Get`
unfoldable pub composite_get {ℓ} : {A : Type ℓ} → List (Text → Option A) → Text → Option A
composite_get [] id = none
composite_get (r ∷ rs) id = elim (r id) [ none ↦ composite_get rs id | some s ↦ some s ]

-- `CompositeResizer.Resize`. A resizer answers whether it succeeded, and may change the state.
unfoldable pub composite_resize {ℓ} : {S : Type ℓ} → List (S → Bool × S) → S → Bool × S
composite_resize [] s = (false, s)
composite_resize (r ∷ rs) s =
    let rest = composite_resize rs (r s).1 in if (r s).0 then (true, (r s).1) else rest
