-- ===== src/App/Hosts.antt =====
-- app/bindings.go: the hosts that the window asks for.
pub mod Created
mod Tests
use claude_squad_ide.Base.{
  ℕ, Bool, true, false, not, ◌&&◌, ◌||◌, List, [], ◌∷◌, ◌++◌, Option, none, some, Text, codes,
  text_eq, is_empty, has_prefix, drop, trim_space, any, if◌then◌else◌,
}
use claude_squad_ide.Session.Instance.World.{Reply, ok, err}
use claude_squad_ide.Session.Instance.{Instance, is_paused}
use claude_squad_ide.Ssh.Hosts
use claude_squad_ide.Ssh.Hosts.{HostConfig, HostStore, load_all, get_by_id}
use claude_squad_ide.App.Sessions.Api.{SessionApi}

pub record CreateHostOptions : Type 0 where
  pub name : Text
  pub host : Text
  pub port : ℕ
  pub user : Text
  pub auth_method : Text
  pub key_path : Text
  pub secret : Text

-- The store of hosts, and the keychain.
pub record HostDesk (W D : Type 0) : Type 0 where
  pub store : HostStore W D
  pub generate_uuid : W → Text × W
  pub set_secret : Text → Text → W → Option Text × W
  pub delete_secret : Text → W → W

abbrev pub config_of : Text → CreateHostOptions → HostConfig
config_of id opts = record {
  id = id;
  name = opts.name;
  host = opts.host;
  port = opts.port;
  user = opts.user;
  auth_method = opts.auth_method;
  key_path = opts.key_path;
  last_path = [];
}

module _ {W D : Type 0} (d : HostDesk W D) where
  -- GetHosts passes on what LoadAll gives.
  abbrev pub get_hosts : W → Reply (List HostConfig)
  get_hosts w = load_all d.store w

  abbrev pub secret_kept : Text → CreateHostOptions → Option Text × W → Reply HostConfig × W
  secret_kept id opts (none, w) = (ok (config_of id opts), w)
  secret_kept id opts (some e, w) =
      (err (codes "store secret: " ++ e), (Hosts.delete_host d.store id w).1)

  abbrev pub host_saved : Text → CreateHostOptions → Option Text × W → Reply HostConfig × W
  host_saved id opts (some e, w) = (err e, w)
  host_saved id opts (none, w) =
      secret_kept id opts
        (if is_empty opts.secret then (none, w) else d.set_secret id opts.secret w)

  unfoldable pub create_host : CreateHostOptions → W → Reply HostConfig × W
  create_host opts w =
      let (id, w') = d.generate_uuid w in
      host_saved id opts (Hosts.save d.store (config_of id opts) w')

  abbrev pub secret_updated : Option Text × W → Option Text × W
  secret_updated (none, w) = (none, w)
  secret_updated (some e, w) = (some (codes "update secret: " ++ e), w)

  abbrev pub host_updated : CreateHostOptions → Text → Option Text × W → Option Text × W
  host_updated opts id (some e, w) = (some e, w)
  host_updated opts id (none, w) =
      if is_empty opts.secret then (none, w) else secret_updated (d.set_secret id opts.secret w)

  -- The last path of the host is not in the options, and is lost.
  unfoldable pub update_host : CreateHostOptions → Text → W → Option Text × W
  update_host opts id w = host_updated opts id (Hosts.update d.store (config_of id opts) w)

  abbrev pub is_in_use : Text → SessionApi → Bool
  is_in_use id api = any (λ (k, i). text_eq i.host_id id && not (is_paused i.status)) api.instances

  unfoldable pub delete_host : Text → SessionApi → W → Option Text × W
  delete_host id api w =
      if is_in_use id api
      then (some (codes "host has active sessions — pause them first"), w)
      else Hosts.delete_host d.store id (d.delete_secret id w)

  abbrev pub path_set : Text → Reply HostConfig → W → Option Text × W
  path_set path (err e) w = (some e, w)
  path_set path (ok h) w = Hosts.update d.store (record h { last_path = path }) w

  unfoldable pub set_host_last_path : Text → Text → W → Option Text × W
  set_host_last_path id path w = path_set path (get_by_id d.store id w) w

-- `home` is what `echo $HOME` prints on the host.
abbrev pub in_home : Text → Reply Text → Reply Text
in_home dir (err e) = err (codes "resolve home dir: " ++ e)
in_home dir (ok out) =
    if text_eq dir (codes "~") then ok (trim_space out) else ok (trim_space out ++ drop 1 dir)

unfoldable pub resolve_tilde : Text → Reply Text → Reply Text
resolve_tilde dir home =
    if text_eq dir (codes "~") || has_prefix dir (codes "~/") then in_home dir home else ok dir
