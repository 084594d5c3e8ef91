-- ===== src/Pty/WebSocket/Replay.antt =====
-- pty/websocket.go: a client that attaches sees the output, except what falls into a gap.
use claude_squad_ide.Base.{
  ℕ, ◌+◌, ◌≤◌, ◌≡◌, refl, sym, ◌∙◌, true, List, [], ◌∷◌, ◌++◌, append_assoc, append-nil, Option,
  none, some, map, arith, Text, length, length-append, is_empty, if◌then◌else◌,
}
use claude_squad_ide.Pty.Monitor
use claude_squad_ide.Pty.Session.{
  Session, Channel, subscribe, output, broadcast, get_snapshot, channel_cap, with_chans,
}
use claude_squad_ide.Pty.Session.Steps.{
  IsSound, member, output-run, run, step, outputs, subscribe-IsSound,
}
use claude_squad_ide.Pty.WebSocket.{attach}

-- While the channel has room, the outputs queue up in it in order.
outputs-queue :
    (ds : List Text) (s : Session) (p : ℕ) (queue : List Text)
    → IsSound s
    → member p s.subscribers ≡ true
    → (s.chans p).queue ≡ queue
    → length queue + length ds ≤ channel_cap
    → (t : Session) × (run (map outputs ds) s ≡ some t) × ((t.chans p).queue ≡ queue ++ ds)
unfolding run step
outputs-queue [] s p queue v m e h = (s, refl, e ∙ sym (append-nil queue))
outputs-queue (d ∷ ds) s p queue v m e h =
    let r = output-run d s v in
    let q : (r.0.chans p).queue ≡ queue ++ d ∷ [] = rw (r.4 p) (ground (arith, m, e, h)) in
    let ih =
      outputs-queue ds r.0 p (queue ++ d ∷ []) r.2 (rw r.3 m) q
        (omega (arith, length-append queue (d ∷ []))) in
    (ih.0, rw (r.1, run) ih.1, ih.2 ∙ append_assoc queue (d ∷ []) ds)

-- A client that attaches to a sound session, with nothing happening in between, is first sent what
-- the buffer holds, if that is anything; then each of the next outputs, up to 256 of them, waits in
-- its channel in order, even if it takes none of them out.
pub attach-outputs :
    (ds : List Text) (s : Session)
    → IsSound s
    → length ds ≤ channel_cap
    → ((attach (λ t. t) s).0 ≡ (if is_empty (get_snapshot s) then [] else get_snapshot s ∷ []))
      × (t : Session) × (run (map outputs ds) (attach (λ t. t) s).1.1 ≡ some t)
      × ((t.chans (attach (λ t. t) s).1.0).queue ≡ ds)
unfolding attach subscribe
attach-outputs ds s v h =
    let r =
      outputs-queue ds (subscribe s).1 s.next_sub [] (subscribe-IsSound s v)
        (unfold subscribe in ground arith) (unfold subscribe in ground arith) (omega arith) in
    (refl, r.0, r.1, r.2)

monitor-with_chans :
    (s t : Session) (h : Option (ℕ → Channel)) → with_chans s h ≡ some t → t.monitor ≡ s.monitor
monitor-with_chans s t none e = cc
monitor-with_chans s t (some h) e = ground arith

-- An output between the snapshot and the subscription is lost for the client: it is neither in the
-- first messages nor in the channel, though the buffer has it.
pub attach-gap :
    (d : Text) (s t : Session)
    → output d s ≡ some t
    → ((attach (λ _. t) s).0 ≡ (if is_empty (get_snapshot s) then [] else get_snapshot s ∷ []))
      × (((attach (λ _. t) s).1.1.chans (attach (λ _. t) s).1.0).queue ≡ [])
      × ((attach (λ _. t) s).1.1.monitor ≡ Monitor.write s.monitor d)
unfolding attach subscribe output broadcast
attach-gap d s t e = (
  refl,
  ground arith,
  monitor-with_chans (record s { monitor = Monitor.write s.monitor d }) t _ e,
)
