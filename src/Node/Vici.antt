-- ===== src/Node/Vici.antt =====
-- ipsecnode/src/vici.rs: charon's messages as the daemon reads them, and the requests that it sends.
-- What charon answers is a function of the requests so far. Reading certificates from the disk is not
-- modelled.
use fleetsuite.Common.{
  ℕ, Bool, true, false, not, Option, none, some, List, [], ◌∷◌, ◌++◌, ◌==◌, if◌then◌else◌, is_some,
  and_then,
}
use fleetsuite.Common.Text.{Text, codes, text_eq, show_nat}

-- A section's entries stand in the order of their keys, as in the `BTreeMap` that holds them.
mutual
  pub data ViciRawValue : Type 0 where
    text : Text → ViciRawValue
    list : List Text → ViciRawValue
    section : Entries → ViciRawValue

  pub data Entries : Type 0 where
    nil : Entries
    entry : Text → ViciRawValue → Entries → Entries

unfoldable pub lookup : Text → Entries → Option ViciRawValue
lookup key nil = none
lookup key (entry k v rest) = if text_eq key k then some v else lookup key rest

unfoldable pub get_value : Text → ViciRawValue → Option ViciRawValue
get_value key (section es) = lookup key es
get_value key (text t) = none
get_value key (list ts) = none

unfoldable pub as_str : ViciRawValue → Option Text
as_str (text t) = some t
as_str (list ts) = none
as_str (section es) = none

-- `get(key).and_then(as_str)`.
abbrev pub text_at : Text → ViciRawValue → Option Text
text_at key raw = and_then (get_value key raw) as_str

unfoldable pub first_section : Entries → Option ViciRawValue
first_section nil = none
first_section (entry k (section es) rest) = some (section es)
first_section (entry k (text t) rest) = first_section rest
first_section (entry k (list ts) rest) = first_section rest

unfoldable pub find_ike_section : ViciRawValue → Option ViciRawValue
find_ike_section (section es) = first_section es
find_ike_section (text t) = none
find_ike_section (list ts) = none

abbrev is_installed : Option Text → Bool
is_installed none = false
is_installed (some state) = text_eq state (codes "INSTALLED")

-- The peer once for each child that is installed.
unfoldable pub installed_children : Text → Entries → List Text
installed_children peer nil = []
installed_children peer (entry k child rest) =
    let others = installed_children peer rest in
    if is_installed (text_at (codes "state") child) then peer ∷ others else others

abbrev children_of : Text → Option ViciRawValue → List Text
children_of peer none = []
children_of peer (some (section es)) = installed_children peer es
children_of peer (some (text t)) = []
children_of peer (some (list ts)) = []

abbrev peers_of_host : ViciRawValue → Option Text → List Text
peers_of_host ike none = []
peers_of_host ike (some peer) = children_of peer (get_value (codes "child-sas") ike)

abbrev peers_of_ike : Option ViciRawValue → List Text
peers_of_ike none = []
peers_of_ike (some ike) = peers_of_host ike (text_at (codes "remote-host") ike)

-- The replies of `list-sas`, up to the end of the stream or an error.
unfoldable pub list_established_peers : List ViciRawValue → List Text
list_established_peers [] = []
list_established_peers (raw ∷ stream) =
    peers_of_ike (find_ike_section raw) ++ list_established_peers stream

pub record ChildConnConfig : Type 0 where
  pub remote_ts : List Text
  pub local_ts : List Text
  pub esp_proposals : List Text
  pub start_action : Text
  pub mode : Text
  pub dpd_action : Text
  pub if_id_in : Option ℕ
  pub if_id_out : Option ℕ
  pub mark_out : Option ℕ

-- `auth` and `id`.
pub record Auth : Type 0 where
  pub auth : Text
  pub id : Option Text

pub record IkeConnConfig : Type 0 where
  pub version : ℕ
  pub remote_addrs : List Text
  pub proposals : List Text
  pub encap : Option Bool
  pub dpd_delay : ℕ
  pub local_auth : Auth
  pub remote_auth : Auth
  pub children : List (Text × ChildConnConfig)

-- The messages: `load-shared` with its id, type, data and owners, `unload-shared`, `load-conn` with the
-- connection's name, `unload-conn`, `initiate` with the child and the timeout, and `load-cert`.
pub data Request : Type 0 where
  shared_loaded : Text → Text → Text → List Text → Request
  shared_unloaded : Text → Request
  conn_loaded : Text → IkeConnConfig → Request
  conn_unloaded : Text → Request
  initiated : Text → Option Text → Request
  cert_loaded : Text → Text → List ℕ → Request

pub record ViciResult : Type 0 where
  pub success : Option Bool
  pub errmsg : Option Text

-- The requests, the last one first, each with its reply; `none` where the request fails.
abbrev pub Requests : Type 0
Requests = List (Request × Option ViciResult)

abbrev pub Charon : Type 0
Charon = Requests → Request → Option ViciResult

-- Only a failure that the reply states is one.
abbrev pub is_refused : Option Bool → Bool
is_refused none = false
is_refused (some b) = not b

abbrev pub into_result : Option ViciResult → Bool
into_result none = false
into_result (some r) = not (is_refused r.success)

abbrev pub encap_of : ℕ → Option Bool
encap_of version = if version == 1 then some true else none

abbrev pub remote_id : Option Text → Bool → Text → Option Text
remote_id (some identity) static_ip device_ip = some identity
remote_id none static_ip device_ip = if static_ip then some device_ip else none

-- The message that `load_conn` builds.
unfoldable pub conn_config :
    Text
    → Text
    → Bool
    → ℕ
    → Option Text
    → List Text
    → List Text
    → List Text
    → List Text
    → Option ℕ
    → Option ℕ
    → Option Text
    → IkeConnConfig
conn_config conn_name device_ip static_ip version identity ike_proposals esp_proposals remote_ts
      local_ts if_id mark_out local_id =
    record {
      version = version;
      remote_addrs = (if static_ip then device_ip else codes "%any") ∷ [];
      proposals = ike_proposals;
      encap = encap_of version;
      dpd_delay = 30;
      local_auth = record { auth = codes "psk"; id = local_id };
      remote_auth = record { auth = codes "psk"; id = remote_id identity static_ip device_ip };
      children =
          (
            conn_name,
            record {
              remote_ts = remote_ts;
              local_ts = local_ts;
              esp_proposals = esp_proposals;
              start_action = codes "none";
              mode = codes "tunnel";
              dpd_action = codes "restart";
              if_id_in = if_id;
              if_id_out = if_id;
              mark_out = mark_out;
            },
          )
          ∷ [];
    }

abbrev pub conn_id : Text → Text
conn_id site_ip = codes "site-" ++ site_ip

module _ (charon : Charon) where
  abbrev pub request : Request → Requests → Bool × Requests
  request r log = (into_result (charon log r), (r, charon log r) ∷ log)

  unfoldable pub load_shared : Text → Text → List Text → Requests → Bool × Requests
  load_shared id psk owners log = request (shared_loaded id (codes "IKE") psk owners) log

  unfoldable pub unload_shared : Text → Requests → Bool × Requests
  unload_shared id log = request (shared_unloaded id) log

  unfoldable pub load_conn : Text → IkeConnConfig → Requests → Bool × Requests
  load_conn name config log = request (conn_loaded name config) log

  -- A connection that was not loaded is no error.
  unfoldable pub unload_conn : Text → Requests → Bool × Requests
  unload_conn name log =
      (is_some (charon log (conn_unloaded name)), (request (conn_unloaded name) log).1)

  unfoldable pub initiate_child : Text → ℕ → Requests → Bool × Requests
  initiate_child child timeout_ms log = request (initiated child (some (show_nat timeout_ms))) log

  unfoldable pub load_cert : List ℕ → Requests → Bool × Requests
  load_cert pem_bytes log = request (cert_loaded (codes "X509") (codes "CA") pem_bytes) log
