-- ===== src/App/Sessions/Idle/Spared.antt =====
-- app/bindings.go: the check for idle sessions leaves the others alone.
use claude_squad_ide.Base.{◌-◌, Bool, not, ◌||◌, Option, none, some, leb}
use claude_squad_ide.Session.Instance.{is_paused, Instance}
use claude_squad_ide.App.Sessions.Api.{Desk}
use claude_squad_ide.App.Sessions.Idle.{shows_prompt}

abbrev image : (Instance → Instance) → Option Instance → Option Instance
image f none = none
image f (some i) = some (f i)

module _ {W J : Type 0} (d : Desk W J) where
  -- Who shows no prompt, or was looked at within the time, or is paused already.
  abbrev pub is_spared : W → Instance → Bool
  is_spared w i =
      not (shows_prompt d i w) || leb (d.now w - i.last_viewed) d.idle_timeout || is_paused i.status
