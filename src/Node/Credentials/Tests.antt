-- ===== src/Node/Credentials/Tests.antt =====
-- The theorems on charon's keys at one site and a charon that takes everything.
use fleetsuite.Common.{
  ◌≡◌, refl, sym, subst, ◌≢◌, true, false, none, some, List, [], ◌∷◌, ◌++◌, arith,
}
use fleetsuite.Common.Text.{Text, codes, text_eq, text_eq_refl}
use fleetsuite.Node.Site.{SiteRecord}
use fleetsuite.Node.Host.{Reply}
use fleetsuite.Node.Vici.{conn_id, load_shared, load_conn}
use fleetsuite.Common.{ℕ, any, Option}
use fleetsuite.Node.Credentials.Bulk.{keys_read, site_in, bulk_load-Serves}
use fleetsuite.Node.Credentials.{
  Counts, scanned, load_keys, bulk_load, Trace, Setup, psk_prefix, site_prefix, load_one_device,
  unload_one_device, load_device_conn, run_pubsub_loop, get_site_record, psk_id,
}
use fleetsuite.Node.Credentials.Loaded.{
  Serves, load_one_device-Serves, unload_one_device_effect, conn_forgotten, key_forgotten,
  secret_of, conn_of,
}
use fleetsuite.Node.Credentials.Dispatch.{Foreign, Untouched, run_pubsub_loop-Untouched}

abbrev site : SiteRecord
site = record {
  mapped_global_ip = none;
  customer_id = none;
  ike_identity = some (codes "gw.example.com");
  static_ip = some true;
  nat_mode = none;
  ike_version = some 2;
  ike_enc = none;
  ike_auth = none;
  ike_dh = none;
  esp_enc = none;
  esp_auth = none;
  esp_pfs = none;
  remote_ts = none;
  local_ts = none;
}

abbrev setup : Setup
setup = record {
  charon = λ log r. some (record { success = some true; errmsg = none });
  host = λ log c. some (record { success = true; stdout = []; stderr = [] });
  valkey_get = λ key t. Reply.reply (some (codes "secret"));
  connects = λ t. true;
  decode = λ json. some site;
  local_ike_id = none;
}

abbrev fresh : Trace
fresh = record { requests = []; commands = [] }

loads : (load_one_device setup (codes "192.0.2.1") fresh).0 ≡ true
unfolding load_one_device load_shared load_device_conn load_conn
loads = refl

load_one_device-Serves_example :
    Serves setup
      (codes "192.0.2.1")
      (codes "secret")
      (get_site_record setup (codes "192.0.2.1") fresh)
      (load_one_device setup (codes "192.0.2.1") fresh).1.requests
load_one_device-Serves_example =
    load_one_device-Serves setup (codes "192.0.2.1") (codes "secret") fresh refl loads

unload_one_device_effect_example :
    ((unload_one_device setup (codes "192.0.2.1") fresh).0
      ≡ key_forgotten setup (codes "192.0.2.1") fresh)
    × ((unload_one_device setup (codes "192.0.2.1") fresh).0 ≡ true
        → (secret_of
              (psk_id (codes "192.0.2.1"))
              (unload_one_device setup (codes "192.0.2.1") fresh).1.requests
            ≡ none)
          × (conn_forgotten setup (codes "192.0.2.1") fresh ≡ true
              → conn_of
                  (conn_id (codes "192.0.2.1"))
                  (unload_one_device setup (codes "192.0.2.1") fresh).1.requests
                ≡ none))
    × ((unload_one_device setup (codes "192.0.2.1") fresh).0 ≡ false
        → (conn_of
              (conn_id (codes "192.0.2.1"))
              (unload_one_device setup (codes "192.0.2.1") fresh).1.requests
            ≡ conn_of (conn_id (codes "192.0.2.1")) fresh.requests)
          × ((unload_one_device setup (codes "192.0.2.1") fresh).1.commands ≡ fresh.commands))
unload_one_device_effect_example = unload_one_device_effect setup (codes "192.0.2.1") fresh

abbrev messages : List (Text × Text)
messages =
    (codes "__keyevent@0__:set", codes "fleetipsec:psk:192.0.2.9")
    ∷ (codes "__keyevent@0__:del", codes "fleetipsec:nat:192.0.2.1")
    ∷ []

apart : (s t : Text) → text_eq s t ≡ false → s ≢ t
apart s t n e = ground (arith, subst (λ u. text_eq s u ≡ false) (sym e) n, text_eq_refl s)

foreign :
    (key : Text)
    → text_eq key (psk_prefix ++ codes "192.0.2.1") ≡ false
    → text_eq key (site_prefix ++ codes "192.0.2.1") ≡ false
    → Foreign (codes "192.0.2.1") key
foreign key p q = record {
  not_psk = apart key (psk_prefix ++ codes "192.0.2.1") p;
  not_site = apart key (site_prefix ++ codes "192.0.2.1") q;
}

run_pubsub_loop-Untouched_example :
    Untouched (codes "192.0.2.1") fresh (run_pubsub_loop setup messages fresh)
unfolding text_eq
run_pubsub_loop-Untouched_example =
    run_pubsub_loop-Untouched setup (codes "192.0.2.1") messages fresh (
      foreign (codes "fleetipsec:psk:192.0.2.9") refl refl,
      (foreign (codes "fleetipsec:nat:192.0.2.1") refl refl, tt),
    )

abbrev db : Text → Option Text
db key = some (codes "secret")

abbrev pages : List (Option (ℕ × List Text))
pages =
    some (7, codes "fleetipsec:psk:192.0.2.9" ∷ [])
    ∷ some (0, codes "fleetipsec:psk:192.0.2.1" ∷ [])
    ∷ []

abbrev unloaded : Counts
unloaded = record { loaded = 0; errors = 0; trace = fresh }

abbrev loaded_all : Counts
loaded_all =
    load_keys setup (codes "fleetipsec:psk:192.0.2.9" ∷ codes "fleetipsec:psk:192.0.2.1" ∷ [])
      unloaded

finishes : bulk_load setup pages unloaded ≡ scanned loaded_all
unfolding bulk_load load_keys
finishes = refl

is_read : any (text_eq (psk_prefix ++ codes "192.0.2.1")) (keys_read pages) ≡ true
unfolding keys_read text_eq
is_read = refl

bulk_load-Serves_example :
    Serves setup
      (codes "192.0.2.1")
      (codes "secret")
      (site_in setup db (codes "192.0.2.1"))
      loaded_all.trace.requests
bulk_load-Serves_example =
    bulk_load-Serves setup db (record { takes = λ log r. refl; still = λ key t. refl }) pages
      unloaded loaded_all (codes "192.0.2.1") (codes "secret") finishes is_read refl
