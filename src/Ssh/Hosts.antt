-- ===== src/Ssh/Hosts.antt =====
-- ssh/hosts.go: the saved hosts, a list in a JSON file.
pub mod Table
use claude_squad_ide.Base.{
  ℕ, Bool, true, false, not, List, [], ◌∷◌, ◌++◌, Option, none, some, Text, codes, text_eq, keep,
  find, if◌then◌else◌,
}
use claude_squad_ide.Session.Instance.World.{Reply, ok, err}

pub record HostConfig : Type 0 where
  pub id : Text
  pub name : Text
  pub host : Text
  pub port : ℕ
  pub user : Text
  pub auth_method : Text
  pub key_path : Text
  pub last_path : Text

-- The bytes of a file are of a type of their own.
pub data Contents (D : Type 0) : Type 0 where
  no_file : Contents D
  unreadable : Text → Contents D
  bytes : D → Contents D

-- The file of a HostStore, and JSON.
pub record HostStore (W D : Type 0) : Type 0 where
  pub read_file : W → Contents D
  pub write_file : D → W → Option Text × W
  pub unmarshal : D → Reply (List HostConfig)
  pub marshal : List HostConfig → Reply D

abbrev pub parsed : Reply (List HostConfig) → Reply (List HostConfig)
parsed (ok hosts) = ok hosts
parsed (err e) = err (codes "parse hosts file: " ++ e)

abbrev pub contents_of : {W D : Type 0} → HostStore W D → Contents D → Reply (List HostConfig)
contents_of s no_file = ok []
contents_of s (unreadable e) = err (codes "read hosts file: " ++ e)
contents_of s (bytes t) = parsed (s.unmarshal t)

abbrev pub load_all : {W D : Type 0} → HostStore W D → W → Reply (List HostConfig)
load_all s w = contents_of s (s.read_file w)

abbrev pub write_hosts : {W D : Type 0} → HostStore W D → Reply D → W → Option Text × W
write_hosts s (ok t) w = s.write_file t w
write_hosts s (err e) w = (some (codes "marshal hosts: " ++ e), w)

abbrev pub save_locked : {W D : Type 0} → HostStore W D → List HostConfig → W → Option Text × W
save_locked s hosts w = write_hosts s (s.marshal hosts) w

-- What an operation does with the hosts that it loads.
abbrev pub with_hosts :
    {W : Type 0}
    → Reply (List HostConfig)
    → (List HostConfig → W → Option Text × W)
    → W
    → Option Text × W
with_hosts (err e) f w = (some e, w)
with_hosts (ok hosts) f w = f hosts w

unfoldable pub save : {W D : Type 0} → HostStore W D → HostConfig → W → Option Text × W
save s host w = with_hosts (load_all s w) (λ hosts. save_locked s (hosts ++ host ∷ [])) w

abbrev pub not_found : Text → Text
not_found id = codes "host " ++ (id ++ codes " not found")

-- The hosts with the first of the same identifier replaced.
unfoldable pub replaced : HostConfig → List HostConfig → Option (List HostConfig)
replaced host [] = none
replaced host (h ∷ hs) =
    let rest = replaced host hs in
    if text_eq h.id host.id
    then some (host ∷ hs)
    else elim rest [ none ↦ none | some hs' ↦ some (h ∷ hs') ]

abbrev pub save_replaced :
    {W D : Type 0} → HostStore W D → HostConfig → Option (List HostConfig) → W → Option Text × W
save_replaced s host none w = (some (not_found host.id), w)
save_replaced s host (some hosts) w = save_locked s hosts w

unfoldable pub update : {W D : Type 0} → HostStore W D → HostConfig → W → Option Text × W
unfolding replaced
update s host w = with_hosts (load_all s w) (λ hosts. save_replaced s host (replaced host hosts)) w

unfoldable pub delete_host : {W D : Type 0} → HostStore W D → Text → W → Option Text × W
delete_host s id w =
    with_hosts (load_all s w) (λ hosts. save_locked s (keep (λ h. not (text_eq h.id id)) hosts)) w

abbrev pub found_or : Text → Option HostConfig → Reply HostConfig
found_or id none = err (not_found id)
found_or id (some h) = ok h

abbrev pub host_in : Text → Reply (List HostConfig) → Reply HostConfig
host_in id (err e) = err e
host_in id (ok hosts) = found_or id (find (λ h. text_eq h.id id) hosts)

unfoldable pub get_by_id : {W D : Type 0} → HostStore W D → Text → W → Reply HostConfig
get_by_id s id w = host_in id (load_all s w)
