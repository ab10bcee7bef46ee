-- ===== src/Node/Credentials.antt =====
-- ipsecnode/src/credentials.rs: charon's keys and connections, loaded from Valkey and kept in step with
-- it. Decoding a site's record is a parameter.
pub mod Loaded
pub mod Dispatch
pub mod Bulk
mod Tests
use fleetsuite.Common.{
  ℕ, zero, suc, ◌+◌, ◌-◌, ◌*◌, ◌/◌, ◌%◌, ◌^◌, ◌≤◌, ◌<◌, ◌≡◌, refl, sym, ap, ap₂, subst, ◌∙◌, ◌≢◌,
  ◌↔◌, ◌⊎◌, inl, inr, Bool, true, false, not, ◌&&◌, ◌||◌, Option, none, some, List, [], ◌∷◌, ◌++◌,
  map, arith, ltb, leb, ◌==◌, if◌then◌else◌, ==_iff, Bool-cases, Option-cases, is_some, unwrap_or,
  map_option, and_then, length, get_elem?, any, all, find, filter, is_empty, All, length-append,
  filter_map, cons_some, flat_map, All-append, All-intro, All-mono, All-filter_map, All-flat_map,
}
use fleetsuite.Common.Text.{
  Text, codes, text_eq, show_nat, contains, strip_prefix, ends_with, starts_with,
}
use fleetsuite.Common.Net.{parse_ipv4}
use fleetsuite.Node.Site.{SiteRecord}
use fleetsuite.Node.Proposals.{build_ike_proposals, build_esp_proposals}
use fleetsuite.Node.Host.{Host, Log, Command, Output, Reply, run_ok}
use fleetsuite.Node.Vrf.{xfrm_if_name}
use fleetsuite.Node.Vici.{
  Requests, Charon, IkeConnConfig, conn_config, conn_id, load_shared, unload_shared, load_conn,
  unload_conn,
}

abbrev pub psk_prefix : Text
psk_prefix = codes "fleetipsec:psk:"

abbrev pub site_prefix : Text
site_prefix = codes "fleetipsec:site:"

abbrev pub psk_id : Text → Text
psk_id device_ip = codes "psk-" ++ device_ip

-- What the task has asked of charon and run on its host.
pub record Trace : Type 0 where
  pub requests : Requests
  pub commands : Log

-- A call that may fail: whether it returns `Ok`.
abbrev pub Task : Type 0
Task = Trace → Bool × Trace

-- What the calls use: charon, the host, and Valkey, whose answer may depend on the time, and which may
-- refuse a connection.
pub record Setup : Type 0 where
  pub charon : Charon
  pub host : Host
  pub valkey_get : Text → Trace → Reply
  pub connects : Trace → Bool
  pub decode : Text → Option SiteRecord
  pub local_ike_id : Option Text

abbrev pub site_of : (Text → Option SiteRecord) → Reply → Option SiteRecord
site_of decode Reply.failed = none
site_of decode (Reply.reply none) = none
site_of decode (Reply.reply (some json)) = decode json

abbrev pub identity_of : Option SiteRecord → Option Text
identity_of none = none
identity_of (some rec) = rec.ike_identity

-- The site's address, and its IKE identity if there is one.
unfoldable pub build_owners : Text → Option SiteRecord → List Text
build_owners device_ip record_of = device_ip ∷ cons_some (identity_of record_of) []

abbrev pub accept_all : List Text
accept_all = codes "0.0.0.0/0" ∷ []

unfoldable pub device_remote_ts : SiteRecord → List Text
device_remote_ts rec = unwrap_or rec.remote_ts accept_all

unfoldable pub device_local_ts : SiteRecord → List Text
device_local_ts rec = unwrap_or rec.local_ts accept_all

abbrev pub says_backend : Option Text → Bool
says_backend none = false
says_backend (some mode) = text_eq mode (codes "backend")

abbrev pub mark_of : SiteRecord → Option ℕ → Option ℕ
mark_of rec if_id = if says_backend rec.nat_mode then if_id else none

-- The connection that a site's record asks for.
unfoldable pub site_config : Text → SiteRecord → Option Text → IkeConnConfig
site_config device_ip rec local_ike_id =
    conn_config (conn_id device_ip) device_ip (unwrap_or rec.static_ip false)
      (unwrap_or rec.ike_version 0) rec.ike_identity (build_ike_proposals rec)
      (build_esp_proposals rec) (device_remote_ts rec) (device_local_ts rec) (parse_ipv4 device_ip)
      (mark_of rec (parse_ipv4 device_ip)) local_ike_id

abbrev pub link : Text → List Text → Command
link verb args = Command.ip (codes "link" ∷ verb ∷ args)

module _ (host : Host) where
  abbrev pub brought_up : Text → Bool → Log → Log
  brought_up xfrm_if created log =
      if created
      then (run_ok host (link (codes "set") (xfrm_if ∷ codes "mtu" ∷ codes "1420" ∷ []))
          (run_ok host (link (codes "set") (xfrm_if ∷ codes "up" ∷ [])) log).1).1
      else log

  unfoldable pub create_xfrm_if : Text → ℕ → Log → Log
  create_xfrm_if xfrm_if if_id log =
      let made =
        run_ok host
          (link (codes "add") (
            xfrm_if
            ∷ codes "type"
            ∷ codes "xfrm"
            ∷ codes "dev"
            ∷ codes "ens5"
            ∷ codes "if_id"
            ∷ show_nat if_id
            ∷ []))
          log in
      brought_up xfrm_if made.0 made.1

  unfoldable pub delete_xfrm_if : Text → Log → Log
  delete_xfrm_if xfrm_if log = (run_ok host (link (codes "del") (xfrm_if ∷ [])) log).1

  abbrev pub create_for : Option ℕ → Log → Log
  create_for none log = log
  create_for (some id) log = create_xfrm_if (xfrm_if_name id) id log

  abbrev pub delete_for : Option ℕ → Log → Log
  delete_for none log = log
  delete_for (some id) log = delete_xfrm_if (xfrm_if_name id) log

-- A request, whose outcome is that of the call.
abbrev pub asking : (Requests → Bool × Requests) → Task
asking ask t = ((ask t.requests).0, record t { requests = (ask t.requests).1 })

-- The counts of `bulk_load`.
pub record Counts : Type 0 where
  pub loaded : ℕ
  pub errors : ℕ
  pub trace : Trace

abbrev pub counted : Bool → Counts → Counts
counted true b = record b { loaded = b.loaded + 1 }
counted false b = record b { errors = b.errors + 1 }

-- The end of the scan, its failure, or a scan that still waits for replies.
pub data Scan : Type 0 where
  scanned : Counts → Scan
  scan_failed : Scan
  scanning : Counts → Scan

module _ (e : Setup) where
  abbrev pub get_site_record : Text → Trace → Option SiteRecord
  get_site_record device_ip t = site_of e.decode (e.valkey_get (site_prefix ++ device_ip) t)

  unfoldable pub load_device_conn : Text → SiteRecord → Task
  load_device_conn device_ip rec t =
      asking (load_conn e.charon (conn_id device_ip) (site_config device_ip rec e.local_ike_id))
        (record t { commands = create_for e.host (parse_ipv4 device_ip) t.commands })

  abbrev pub with_conn : Text → Option SiteRecord → Bool × Trace → Bool × Trace
  with_conn device_ip record_of (false, t) = (false, t)
  with_conn device_ip none (true, t) = (true, t)
  with_conn device_ip (some rec) (true, t) = load_device_conn device_ip rec t

  abbrev pub with_psk : Text → Option Text → Task
  with_psk device_ip none t = (true, t)
  with_psk device_ip (some psk) t =
      let record_of = get_site_record device_ip t in
      with_conn device_ip record_of
        (asking (load_shared e.charon (psk_id device_ip) psk (build_owners device_ip record_of)) t)

  abbrev pub by_reply : Text → Reply → Task
  by_reply device_ip Reply.failed t = (false, t)
  by_reply device_ip (Reply.reply psk) t = with_psk device_ip psk t

  unfoldable pub load_one_device : Text → Task
  load_one_device device_ip t = by_reply device_ip (e.valkey_get (psk_prefix ++ device_ip) t) t

  abbrev pub conn_removed : Text → Bool × Trace → Bool × Trace
  conn_removed device_ip (false, t) = (false, t)
  conn_removed device_ip (true, t) =
      let gone = asking (unload_conn e.charon (conn_id device_ip)) t in
      (true, record gone.1 { commands = delete_for e.host (parse_ipv4 device_ip) gone.1.commands })

  unfoldable pub unload_one_device : Text → Task
  unload_one_device device_ip t =
      conn_removed device_ip (asking (unload_shared e.charon (psk_id device_ip)) t)

  -- A fresh connection to Valkey comes first.
  abbrev pub reload : Text → Trace → Trace
  reload device_ip t = if e.connects t then (load_one_device device_ip t).1 else t

  unfoldable pub handle_psk_event : Text → Bool → Bool → Trace → Trace
  handle_psk_event device_ip is_set is_del t =
      if is_set then reload device_ip t else if is_del then (unload_one_device device_ip t).1 else t

  unfoldable pub handle_site_event : Text → Trace → Trace
  handle_site_event device_ip t =
      reload device_ip (asking (unload_conn e.charon (conn_id device_ip)) t).1

  abbrev pub site_key : Option Text → Trace → Trace
  site_key none t = t
  site_key (some device_ip) t = handle_site_event device_ip t

  abbrev pub psk_or_site : Option Text → Text → Text → Trace → Trace
  psk_or_site (some device_ip) channel key t =
      handle_psk_event device_ip (ends_with (codes ":set") channel)
        (ends_with (codes ":del") channel || ends_with (codes ":expired") channel) t
  psk_or_site none channel key t = site_key (strip_prefix site_prefix key) t

  -- A message of the subscription: its channel and its key.
  unfoldable pub on_message : Text → Text → Trace → Trace
  on_message channel key t = psk_or_site (strip_prefix psk_prefix key) channel key t

  unfoldable pub run_pubsub_loop : List (Text × Text) → Trace → Trace
  run_pubsub_loop [] t = t
  run_pubsub_loop ((channel, key) ∷ messages) t =
      run_pubsub_loop messages (on_message channel key t)

  unfoldable pub load_keys : List Text → Counts → Counts
  load_keys [] b = b
  load_keys (key ∷ keys) b =
      let loaded = load_one_device (unwrap_or (strip_prefix psk_prefix key) key) b.trace in
      load_keys keys (counted loaded.0 (record b { trace = loaded.1 }))

  -- On the replies of SCAN, each the next cursor and some keys; `none` is an error.
  unfoldable pub bulk_load : List (Option (ℕ × List Text)) → Counts → Scan
  bulk_load [] b = scanning b
  bulk_load (none ∷ pages) b = scan_failed
  bulk_load (some (cursor, keys) ∷ pages) b =
      let more = bulk_load pages (load_keys keys b) in
      if cursor == 0 then scanned (load_keys keys b) else more
