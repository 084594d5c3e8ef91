-- ===== src/App/Sessions/Outcomes.antt =====
-- app/bindings.go: what the operations leave of a session, and of the others.
use claude_squad_ide.Base.{
  ◌≡◌, refl, sym, subst, ap, ◌∙◌, true, false, [], Option, none, some, Text, text_eq, is_empty,
  lookup, lookup-insert, lookup-insert_self, lookup-delete_self, if_false, if_intro,
}
use claude_squad_ide.Session.Instance.{loading, paused, is_paused, Instance, Error}
use claude_squad_ide.Session.Instance.Life.{pause, resume, start, touch_last_viewed, set_status}
use claude_squad_ide.Session.Instance.Lifecycle.{PauseOutcome, pause_outcome}
use claude_squad_ide.App.Sessions.Api.{
  SessionApi, Desk, Answer, done, fault, with_instance, stop_indexer, start_indexer, index_unless,
}
use claude_squad_ide.App.Sessions.{
  pause_session, pause_found, pause_result, open_session, open_found, opened, opened_again, indexed,
  process_of, reconnected, start_session, start_found, start_result, set_mcp_config,
}

-- Another session is as it was.
pub lookup-insert_other :
    (id j : Text) (i : Instance) (api : SessionApi)
    → text_eq id j ≡ false
    → lookup j (with_instance id i api).instances ≡ lookup j api.instances
lookup-insert_other id j i api n =
    lookup-insert id j i api.instances ∙ if_false (text_eq id j) _ _ n

index-instances :
    (id : Text) (i : Instance) (api : SessionApi)
    → lookup id (start_indexer id i api).instances ≡ lookup id api.instances
index-instances id i api =
    if_intro (λ (x : SessionApi). lookup id x.instances ≡ lookup id api.instances)
      (is_empty i.host_id) _ _ (λ _. refl) (λ _. refl)

index_if-instances :
    (id : Text) (i : Instance) (api : SessionApi) (o : Option Text)
    → lookup id (index_unless id i o api).instances ≡ lookup id api.instances
index_if-instances id i api none = index-instances id i api
index_if-instances id i api (some root) = refl

module _ {W J : Type 0} (d : Desk W J) where
  pause_result-other :
      (id j : Text) (api : SessionApi) (r : Option Error × (Instance × W))
      → text_eq id j ≡ false
      → lookup j (pause_result d id api r).1.0.instances ≡ lookup j api.instances
  pause_result-other id j api (none, (i, w)) n = lookup-insert_other id j i api n
  pause_result-other id j api (some e, (i, w)) n = lookup-insert_other id j i api n

  pause_found-other :
      (id j : Text) (o : Option Instance) (api : SessionApi) (w : W)
      → text_eq id j ≡ false
      → lookup j (pause_found d id o (api, w)).1.0.instances ≡ lookup j api.instances
  pause_found-other id j none api w n = refl
  pause_found-other id j (some i) api w n =
      pause_result-other id j (stop_indexer id api) (pause (d.env i.host_id) (i, w)) n

  pub pause_session-other :
      (id j : Text) (api : SessionApi) (w : W)
      → text_eq id j ≡ false
      → lookup j (pause_session d id (api, w)).1.0.instances ≡ lookup j api.instances
  unfolding pause_session
  pause_session-other id j api w n = pause_found-other id j _ api w n

  -- What PauseSession leaves of a session `i`.
  abbrev pub Paused : Text → Instance → Answer (Unit {0}) × (SessionApi × W) → Type 0
  Paused id i (done t, (api, w)) =
      (j : Instance) × (lookup id api.instances ≡ some j)
      × (j.status ≡ paused)
      × (j.process_id ≡ [])
      × (j.git_worktree ≡ i.git_worktree)
      × (lookup id api.indexers ≡ none)
  Paused id i (fault f, (api, w)) =
      (lookup id api.instances ≡ some i) × (lookup id api.indexers ≡ none)

  pause_result-Paused :
      (id : Text) (i : Instance) (api : SessionApi) (r : Option Error × (Instance × W))
      → lookup id api.indexers ≡ none
      → PauseOutcome (d.env i.host_id) i r
      → Paused id i (pause_result d id api r)
  pause_result-Paused id i api (none, (j, w)) n (p, q, g, s) =
      (j, lookup-insert_self id j api.instances, p, q, g, n)
  pause_result-Paused id i api (some e, (j, w)) n k =
      (lookup-insert_self id j api.instances ∙ ap some k, n)

  -- If PauseSession of a session that is there succeeds, the session is there, paused, with no
  -- process and with its worktree; if not, it is as it was. In either case its indexer is stopped,
  -- and every other session is as it was.
  pub pause_session_outcome :
      (id : Text) (i : Instance) (api : SessionApi) (w : W)
      → lookup id api.instances ≡ some i
      → Paused id i (pause_session d id (api, w))
        × ((j : Text)
            → text_eq id j ≡ false
            → lookup j (pause_session d id (api, w)).1.0.instances ≡ lookup j api.instances)
  unfolding pause_session
  pause_session_outcome id i api w e = (
    subst (λ o. Paused id i (pause_found d id o (api, w))) (sym e)
        (pause_result-Paused id i (stop_indexer id api) (pause (d.env i.host_id) (i, w))
          (lookup-delete_self id api.indexers) (pause_outcome (d.env i.host_id) i w)),
    λ j. pause_session-other id j api w,
  )

  -- A session whose process is the answer.
  abbrev pub Opened : Text → Answer Text × (SessionApi × W) → Type 0
  Opened id (fault f, s) = Unit
  Opened id (done p, (api, w)) =
      (i : Instance) × (lookup id api.instances ≡ some i)
      × (i.process_id ≡ p)
      × (is_empty p ≡ false)

  process_of-Opened :
      (id : Text) (i : Instance) (api : SessionApi) (w : W)
      → lookup id api.instances ≡ some i
      → Opened id (process_of d id i (api, w))
  process_of-Opened id i api w e =
      if_intro (Opened id) (is_empty i.process_id) _ _ (λ _. tt) (λ n. (i, e, refl, n))

  indexed-Opened :
      (id : Text) (i : Instance) (api : SessionApi) (w : W)
      → lookup id api.instances ≡ some i
      → Opened id (indexed d id i (api, w))
  indexed-Opened id i api w e = process_of-Opened id i _ w (index_if-instances id i api _ ∙ e)

  opened_again-Opened :
      (id : Text) (api : SessionApi) (r : Option Error × (Instance × W))
      → Opened id (opened_again d id api r)
  opened_again-Opened id api (some e, (i, w)) = tt
  opened_again-Opened id api (none, (i, w)) =
      indexed-Opened id i _ _ (lookup-insert_self id i api.instances)

  opened-Opened : (id : Text) (api : SessionApi) (s : Instance × W) → Opened id (opened d id api s)
  opened-Opened id api (i, w) =
      if_intro (Opened id) (is_paused i.status) _ _
        (λ _. opened_again-Opened id api (resume (d.env i.host_id) (set_mcp_config d (i, w))))
        (λ _.
          indexed-Opened id i (with_instance id i api) w (lookup-insert_self id i api.instances))

  reconnected-Opened :
      (id : Text) (api : SessionApi) (i : Instance) (r : Option Text × W)
      → Opened id (reconnected d id api i r)
  reconnected-Opened id api i (some e, w) = tt
  reconnected-Opened id api i (none, w) = opened-Opened id api _

  open_found-Opened :
      (id : Text) (o : Option Instance) (api : SessionApi) (w : W)
      → Opened id (open_found d id o (api, w))
  open_found-Opened id none api w = tt
  open_found-Opened id (some i) api w =
      let i' = touch_last_viewed (d.now w) i in
      if_intro (Opened id) (is_empty i.host_id) _ _ (λ _. opened-Opened id api (i', w))
        (λ _. reconnected-Opened id api i' (d.connect i.host_id w))

  -- If OpenSession answers with a process, it is not the empty name, and it is that of the session
  -- as it is then, whether it ran, was resumed or was found dead on a host.
  pub open_session-Opened :
      (id : Text) (api : SessionApi) (w : W) → Opened id (open_session d id (api, w))
  unfolding open_session
  open_session-Opened id api w = open_found-Opened id (lookup id api.instances) api w

  -- What StartSession leaves: a session that is started, or none.
  abbrev pub StartedOrGone : Text → Answer (Unit {0}) × (SessionApi × W) → Type 0
  StartedOrGone id (fault f, (api, w)) = lookup id api.instances ≡ none
  StartedOrGone id (done t, (api, w)) = (i : Instance) × (lookup id api.instances ≡ some i)

  start_result-StartedOrGone :
      (id : Text) (api : SessionApi) (r : Option Error × (Instance × W))
      → StartedOrGone id (start_result d id api r)
  start_result-StartedOrGone id api (some e, (i, w)) = lookup-delete_self id api.instances
  start_result-StartedOrGone id api (none, (i, w)) =
      (i, index-instances id i _ ∙ lookup-insert_self id i api.instances)

  start_found-StartedOrGone :
      (id : Text) (o : Option Instance) (api : SessionApi) (w : W)
      → lookup id api.instances ≡ o
      → StartedOrGone id (start_found d id o (api, w))
  start_found-StartedOrGone id none api w e = e
  start_found-StartedOrGone id (some i) api w e =
      if_intro (StartedOrGone id) i.started _ _ (λ _. (i, e))
        (λ _.
          start_result-StartedOrGone id api
            (start (d.env i.host_id) true (set_mcp_config d (set_status loading i, w))))

  -- If StartSession fails, for whatever reason, there is no session of that name afterwards; if it
  -- succeeds there is one.
  pub start_session-StartedOrGone :
      (id : Text) (api : SessionApi) (w : W) → StartedOrGone id (start_session d id (api, w))
  unfolding start_session
  start_session-StartedOrGone id api w =
      start_found-StartedOrGone id (lookup id api.instances) api w refl
