-- ===== src/App/Mcp/Server.antt =====
-- app/mcp_server.go: the server itself: starting, stopping, and which session a request is for.
use claude_squad_ide.Base.{
  ℕ, ◌+◌, ◌≡◌, refl, Bool, true, false, List, [], ◌∷◌, ◌++◌, Option, none, some, Text, codes, itoa,
  split, push_head, trim_prefix, is_empty, any, Assoc, lookup, arith, ◌==◌, if◌then◌else◌,
}
use claude_squad_ide.Session.Instance.World.{Reply, ok, err}

-- `I` is the type of the indexers. The session's are those of the window, if there is one.
pub record McpServer (I : Type 0) : Type 0 where
  pub sessions : Option (Assoc I)
  pub standalone_indexer : Option I
  pub standalone_ts_indexer : Option I
  pub has_server : Bool
  pub listener : Option ℕ
  pub port : ℕ

module _ {I : Type 0} where
  abbrev pub new_mcp_server : Assoc I → McpServer I
  new_mcp_server sessions = record {
    sessions = some sessions;
    standalone_indexer = none;
    standalone_ts_indexer = none;
    has_server = false;
    listener = none;
    port = 0;
  }

  -- `listen` gives a listener, and its port.
  abbrev pub listened : McpServer I → Reply (ℕ × ℕ) → Reply ℕ × McpServer I
  listened m (err e) = (err (codes "failed to listen: " ++ e), record m { has_server = true })
  listened m (ok (l, p)) = (ok p, record m { has_server = true; listener = some l; port = p })

  unfoldable pub start : Reply (ℕ × ℕ) → McpServer I → Reply ℕ × McpServer I
  start listen m = elim m.listener [ none ↦ listened m listen | some l ↦ (ok m.port, m) ]

  -- The listener that is closed, if any, and the server.
  unfoldable pub stop : McpServer I → Option ℕ × McpServer I
  stop m = elim m.listener [
    | none ↦ (none, m)
    | some l ↦ (some l, record m { listener = none; port = 0 })
  ]

  abbrev pub no_indexer : (Text → Text) → Text → Option I → Reply I
  no_indexer quote id none = err (codes "no indexer found for session " ++ quote id)
  no_indexer quote id (some i) = ok i

  abbrev pub session_indexer : (Text → Text) → Text → Option (Assoc I) → Reply I
  session_indexer quote id none = err (codes "no API or standalone indexer configured")
  session_indexer quote id (some sessions) = no_indexer quote id (lookup id sessions)

  abbrev pub alone : Option I → Reply I → Reply I
  alone none r = r
  alone (some i) r = ok i

  -- `quote` is `%q`.
  unfoldable pub get_indexer : (Text → Text) → McpServer I → Text → Reply I
  get_indexer quote m id =
      alone m.standalone_ts_indexer
        (alone m.standalone_indexer (session_indexer quote id m.sessions))

abbrev pub first_part : List Text → Text
first_part [] = []
first_part (p ∷ ps) = p

-- The session in the path of a request, if it is not empty.
unfoldable pub session_of_path : Text → Option Text
session_of_path path =
    let id = first_part (split b'/' (trim_prefix path (codes "/mcp/"))) in
    if is_empty id then none else some id

-- The path of the address that GenerateMCPConfig writes, and the address.
abbrev pub mcp_path : Text → Text
mcp_path id = codes "/mcp/" ++ id

unfoldable pub mcp_url : ℕ → Text → Text
mcp_url port id = codes "http://127.0.0.1:" ++ (itoa port ++ mcp_path id)

first_part-push_head : (c : ℕ) (ps : List Text) → first_part (push_head c ps) ≡ c ∷ first_part ps
first_part-push_head c [] = refl
first_part-push_head c (p ∷ ps) = refl

first_part-split :
    (s rest : Text)
    → any (λ c. c == b'/') s ≡ false
    → first_part (split b'/' (s ++ b'/' ∷ rest)) ≡ s
first_part-split [] rest h = refl
first_part-split (c ∷ s) rest h =
    ground
      (arith, h, first_part-push_head c (split b'/' (s ++ b'/' ∷ rest)), first_part-split s rest)

first_part-split_all : (s : Text) → any (λ c. c == b'/') s ≡ false → first_part (split b'/' s) ≡ s
first_part-split_all [] h = refl
first_part-split_all (c ∷ s) h =
    ground (arith, h, first_part-push_head c (split b'/' s), first_part-split_all s)

-- A request to the address of a session, or to a path below it, is for that session, if its name is
-- not empty and has no slash in it.
pub session_of_path-mcp_path :
    (id rest : Text)
    → is_empty id ≡ false
    → any (λ c. c == b'/') id ≡ false
    → (session_of_path (mcp_path id) ≡ some id)
      × (session_of_path (mcp_path id ++ b'/' ∷ rest) ≡ some id)
unfolding session_of_path
session_of_path-mcp_path id rest e h =
    (rw (first_part-split_all id h, e) refl, rw (first_part-split id rest h, e) refl)

-- With a slash in its name, a request to the address of a session is for another one.
pub session_of_path-slash :
    (id rest : Text)
    → any (λ c. c == b'/') id ≡ false
    → session_of_path (mcp_path (id ++ b'/' ∷ rest)) ≡ (if is_empty id then none else some id)
unfolding session_of_path
session_of_path-slash id rest h = rw (first_part-split id rest h) refl

-- What the window asks of the server, with what the system answers.
pub data Request : Type 0 where
  starts : Reply (ℕ × ℕ) → Request
  stops : Request

abbrev pub count : Option ℕ → ℕ
count none = 0
count (some l) = 1

abbrev pub new_listener : Option ℕ → Option ℕ → ℕ
new_listener none after = count after
new_listener (some l) after = 0

-- The server, and how many listeners were opened and closed.
pub record Served (I : Type 0) : Type 0 where
  pub server : McpServer I
  pub opened : ℕ
  pub closed : ℕ

module _ {I : Type 0} where
  unfoldable pub serve : Request → Served I → Served I
  unfolding start stop
  serve (starts listen) s =
      let m = (start listen s.server).1 in
      record s { server = m; opened = s.opened + new_listener s.server.listener m.listener }
  serve stops s = let (l, m) = stop s.server in record s { server = m; closed = s.closed + count l }

  unfoldable pub serve_all : List Request → Served I → Served I
  serve_all [] s = s
  serve_all (r ∷ rs) s = serve_all rs (serve r s)

  -- One listener is open while the server listens, and none otherwise; then it has no port.
  pub record IsServing (s : Served I) : Type 0 where
    pub balanced : s.opened ≡ s.closed + count s.server.listener
    pub portless : s.server.listener ≡ none → s.server.port ≡ 0

  serve-IsServing : (r : Request) (s : Served I) → IsServing s → IsServing (serve r s)
  unfolding serve start stop
  serve-IsServing (starts (err e)) s v = ground (arith, v.balanced)
  serve-IsServing (starts (ok p)) s v = ground (arith, v.balanced)
  serve-IsServing stops s v = ground (arith, v.balanced)

  -- However the server is started and stopped, and whichever starts fail, each listener that was
  -- opened is closed again, but for the one in use if the server listens; if it does not, it has no
  -- port.
  pub serve_all-IsServing :
      (rs : List Request) (s : Served I) → IsServing s → IsServing (serve_all rs s)
  unfolding serve_all
  serve_all-IsServing [] s v = v
  serve_all-IsServing (r ∷ rs) s v = serve_all-IsServing rs (serve r s) (serve-IsServing r s v)
