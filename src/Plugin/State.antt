-- ===== src/Plugin/State.antt =====
-- pkg/plugin/state.go: the records of endpoints and networks, and the two files that hold them.
-- encoding/json is a parameter: a `Codec` for each of the two lists.
pub mod Save
pub mod RoundTrip
use docker_network_dhcp.Base.{
  ℕ, Bool, Option, none, some, List, [], ◌∷◌, ◌++◌, GoString, go, ◌==◌, ◌==ℕ◌, if◌then◌else◌, map,
  ◌≡◌, ◌≢◌,
}
use docker_network_dhcp.Base.GoMap.{GoMap, lookup, insert, values}
use docker_network_dhcp.Util.Errors.{GoError, wrapped}
use docker_network_dhcp.Util.Outcome.{
  Outcome, ok, err, panic, Act, ◌>>=◌, ◌>>◌, wrapping, wrap, lift,
}
use docker_network_dhcp.Plugin.Disk.{
  Disk, File, Journal, Faults, Texts, syscall, make_dir, write_file,
}

pub record NetworkState : Type 0 where
  pub network_id : GoString
  pub bridge : GoString
  pub mode : GoString
  pub ipv6 : Bool

abbrev pub current_schema_version : ℕ
current_schema_version = 1

pub record EndpointState : Type 0 where
  pub schema_version : ℕ
  pub network_id : GoString
  pub endpoint_id : GoString
  pub sandbox_key : GoString
  pub mode : GoString
  pub bridge : GoString
  pub ipv6 : Bool
  pub if_index : ℕ
  pub hostname : GoString

-- json.MarshalIndent and json.Unmarshal at one type of list.
pub record Codec (E : Type 0) : Type 0 where
  pub encode : List E → Outcome GoString
  pub decode : GoString → Outcome (List E)

unfoldable pub state_file : GoString
unfolding go
state_file = go "state.json"

unfoldable pub networks_file : GoString
unfolding go
networks_file = go "networks.json"

-- The name that os.CreateTemp makes from the pattern `state-*.json.tmp`.
unfoldable pub state_temp : GoString → GoString
unfolding go
state_temp random = go "state-" ++ (random ++ go ".json.tmp")

unfoldable pub networks_temp : GoString → GoString
unfolding go
networks_temp random = go "networks-" ++ (random ++ go ".json.tmp")

abbrev pub state_texts : Texts
state_texts = record {
  create_text = go "create temp state file";
  chmod_text = go "chmod temp state";
  write_text = go "write temp state";
  sync_text = go "sync temp state";
  close_text = go "close temp state";
  rename_text = go "rename state file";
}

abbrev pub networks_texts : Texts
networks_texts = record {
  create_text = go "create temp networks file";
  chmod_text = go "chmod temp networks";
  write_text = go "write temp networks";
  sync_text = go "sync temp networks";
  close_text = go "close temp networks";
  rename_text = go "rename networks file";
}

unfoldable pub stamp : EndpointState → EndpointState
stamp e = record e { schema_version = current_schema_version }

-- The entries of a map in the order in which `range` gives them, which `order` chooses.
module _ (f : Faults) where
  unfoldable pub save_state :
      Codec EndpointState
      → (List EndpointState → List EndpointState)
      → GoMap EndpointState
      → Act Journal (Unit {0})
  unfolding stamp write_file make_dir
  save_state c order entries = do
    wrapping (go "create state dir") (syscall f.mkdir make_dir)
    text ← lift (wrap (go "encode state") (c.encode (map stamp (order (values entries)))))
    write_file state_texts f (state_temp f.random) state_file text

  unfoldable pub save_networks :
      Codec NetworkState
      → (List NetworkState → List NetworkState)
      → GoMap NetworkState
      → Act Journal (Unit {0})
  unfolding write_file make_dir
  save_networks c order entries = do
    wrapping (go "create state dir") (syscall f.mkdir make_dir)
    text ← lift (wrap (go "encode networks") (c.encode (order (values entries))))
    write_file networks_texts f (networks_temp f.random) networks_file text

-- An entry with version 0 was written before versions were, and counts as version 1.
unfoldable pub upgrade : EndpointState → EndpointState
upgrade e =
    if e.schema_version ==ℕ 0 then record e { schema_version = current_schema_version } else e

-- The loop that fills the map `out`.
unfoldable pub index_state : GoMap EndpointState → List EndpointState → GoMap EndpointState
unfolding upgrade
index_state out [] = out
index_state out (e ∷ es) = index_state (insert e.endpoint_id (upgrade e) out) es

unfoldable pub index_networks : GoMap NetworkState → List NetworkState → GoMap NetworkState
index_networks out [] = out
index_networks out (e ∷ es) = index_networks (insert e.network_id e out) es

abbrev pub mapped : {A B : Type 0} → (A → B) → Outcome A → Outcome B
mapped f (ok a) = ok (f a)
mapped f (err e) = err e
mapped f panic = panic

-- What os.ReadFile gives: the file, unless the system refuses it.
abbrev pub read_with :
    {B : Type 0} → Option GoError → Option File → GoString → B → (GoString → Outcome B) → Outcome B
read_with (some e) file txt empty use_data = err (wrapped txt e)
read_with none none txt empty use_data = ok empty
read_with none (some file) txt empty use_data =
    if file.content == [] then ok empty else use_data file.content

unfoldable pub load_state :
    Codec EndpointState → Option GoError → Disk → Outcome (GoMap EndpointState)
unfolding index_state
load_state c fault d =
    read_with fault (lookup state_file d.files) (go "read state file") []
      (λ text. mapped (index_state []) (wrap (go "decode state file") (c.decode text)))

unfoldable pub load_networks :
    Codec NetworkState → Option GoError → Disk → Outcome (GoMap NetworkState)
unfolding index_networks
load_networks c fault d =
    read_with fault (lookup networks_file d.files) (go "read networks file") []
      (λ text. mapped (index_networks []) (wrap (go "decode networks file") (c.decode text)))
