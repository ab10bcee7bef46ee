-- ===== src/Node/Credentials/Loaded.antt =====
-- ipsecnode/src/credentials.rs: which keys and connections charon holds after the calls.
use fleetsuite.Common.{
  ℕ, unwrap_or, cons_some, ◌∙◌, ◌≡◌, refl, sym, ap, subst, inl, inr, Bool, true, false, ◌&&◌,
  Option, none, some, List, [], ◌∷◌, ◌++◌, arith, if◌then◌else◌, Bool-cases,
}
use fleetsuite.Common.Text.{Text, codes, text_eq, text_eq_refl}
use fleetsuite.Node.Site.{SiteRecord}
use fleetsuite.Node.Host.{Reply}
use fleetsuite.Common.Net.{parse_ipv4}
use fleetsuite.Node.Proposals.{build_ike_proposals, build_esp_proposals}
use fleetsuite.Node.Vici.{
  Requests, shared_loaded, shared_unloaded, conn_loaded, conn_unloaded, initiated, cert_loaded,
  ChildConnConfig, IkeConnConfig, remote_id, conn_config, conn_id, into_result, load_shared,
  unload_shared, load_conn, unload_conn,
}
use fleetsuite.Node.Credentials.{
  Trace, Setup, identity_of, says_backend, mark_of, device_remote_ts, device_local_ts, psk_prefix,
  psk_id, build_owners, site_config, get_site_record, asking, with_conn, by_reply, load_one_device,
  load_device_conn, unload_one_device,
}

-- The last secret with the id that charon took and has not been told to forget, with its owners.
unfoldable pub secret_of : Text → Requests → Option (Text × List Text)
secret_of id [] = none
secret_of id ((shared_loaded i kind psk owners, out) ∷ log) =
    let before = secret_of id log in
    if text_eq id i && into_result out then some (psk, owners) else before
secret_of id ((shared_unloaded i, out) ∷ log) =
    let before = secret_of id log in if text_eq id i && into_result out then none else before
secret_of id ((conn_loaded name config, out) ∷ log) = secret_of id log
secret_of id ((conn_unloaded name, out) ∷ log) = secret_of id log
secret_of id ((initiated child timeout, out) ∷ log) = secret_of id log
secret_of id ((cert_loaded kind flag pem, out) ∷ log) = secret_of id log

-- The same for a connection.
unfoldable pub conn_of : Text → Requests → Option IkeConnConfig
conn_of name [] = none
conn_of name ((conn_loaded n config, out) ∷ log) =
    let before = conn_of name log in
    if text_eq name n && into_result out then some config else before
conn_of name ((conn_unloaded n, out) ∷ log) =
    let before = conn_of name log in if text_eq name n && into_result out then none else before
conn_of name ((shared_loaded i kind psk owners, out) ∷ log) = conn_of name log
conn_of name ((shared_unloaded i, out) ∷ log) = conn_of name log
conn_of name ((initiated child timeout, out) ∷ log) = conn_of name log
conn_of name ((cert_loaded kind flag pem, out) ∷ log) = conn_of name log

-- The owners of a key: the site's address, and the identity of its record if it has one.
pub record Owned (ip : Text) (record_of : Option SiteRecord) (owners : List Text) : Type 0 where
  pub alone : record_of ≡ none → owners ≡ ip ∷ []
  pub anonymous :
      (rec : SiteRecord) → record_of ≡ some rec → rec.ike_identity ≡ none → owners ≡ ip ∷ []
  pub identified :
      (rec : SiteRecord) (identity : Text)
      → record_of ≡ some rec
      → rec.ike_identity ≡ some identity
      → owners ≡ ip ∷ identity ∷ []

-- The connection that a record asks for, with its one child.
pub record AsksFor (ip : Text) (rec : SiteRecord) (local_id : Option Text) (c : IkeConnConfig)
    (child : ChildConnConfig) : Type 0 where
  pub only_child : c.children ≡ (codes "site-" ++ ip, child) ∷ []
  pub version : (v : ℕ) → rec.ike_version ≡ some v → c.version ≡ v
  pub static_address : rec.static_ip ≡ some true → c.remote_addrs ≡ ip ∷ []
  pub any_address : rec.static_ip ≡ some false → c.remote_addrs ≡ codes "%any" ∷ []
  pub local_identity : c.local_auth.id ≡ local_id
  pub remote_identity : (id : Text) → rec.ike_identity ≡ some id → c.remote_auth.id ≡ some id
  pub by_key : (c.local_auth.auth ≡ codes "psk") × (c.remote_auth.auth ≡ codes "psk")
  pub ike : c.proposals ≡ build_ike_proposals rec
  pub esp : child.esp_proposals ≡ build_esp_proposals rec
  pub remote_nets : (ts : List Text) → rec.remote_ts ≡ some ts → child.remote_ts ≡ ts
  pub local_nets : (ts : List Text) → rec.local_ts ≡ some ts → child.local_ts ≡ ts
  pub all_remote : rec.remote_ts ≡ none → child.remote_ts ≡ codes "0.0.0.0/0" ∷ []
  pub all_local : rec.local_ts ≡ none → child.local_ts ≡ codes "0.0.0.0/0" ∷ []
  pub interface_id : (child.if_id_in ≡ parse_ipv4 ip) × (child.if_id_out ≡ parse_ipv4 ip)
  pub mark : rec.nat_mode ≡ some (codes "backend") → child.mark_out ≡ parse_ipv4 ip
  pub no_mark : rec.nat_mode ≡ none → child.mark_out ≡ none

-- What charon holds for a site, where its record asks for a connection.
pub record Serves (e : Setup) (ip psk : Text) (record_of : Option SiteRecord) (log : Requests)
    : Type 0 where
  pub secret : secret_of (psk_id ip) log ≡ some (psk, build_owners ip record_of)
  pub owned : Owned ip record_of (build_owners ip record_of)
  pub connection :
      (rec : SiteRecord)
      → record_of ≡ some rec
      → conn_of (conn_id ip) log ≡ some (site_config ip rec e.local_ike_id)
  pub asks :
      (rec : SiteRecord)
      → record_of ≡ some rec
      → (child : ChildConnConfig) × AsksFor ip rec e.local_ike_id
          (site_config ip rec e.local_ike_id)
          child

build_owners-Owned :
    (ip : Text) (record_of : Option SiteRecord) → Owned ip record_of (build_owners ip record_of)
unfolding build_owners
build_owners-Owned ip record_of = record {
  alone = λ q. ap (λ o. ip ∷ cons_some (identity_of o) []) q;
  anonymous =
      λ rec q n. ap (λ o. ip ∷ cons_some (identity_of o) []) q ∙ ap (λ o. ip ∷ cons_some o []) n;
  identified =
      λ rec id q n. ap (λ o. ip ∷ cons_some (identity_of o) []) q ∙ ap (λ o. ip ∷ cons_some o []) n;
}

site_config-AsksFor :
    (ip : Text) (rec : SiteRecord) (local_id : Option Text)
    → (child : ChildConnConfig) × AsksFor ip rec local_id (site_config ip rec local_id) child
unfolding site_config conn_config device_remote_ts device_local_ts text_eq
site_config-AsksFor ip rec local_id = (
  record {
    remote_ts = device_remote_ts rec;
    local_ts = device_local_ts rec;
    esp_proposals = build_esp_proposals rec;
    start_action = codes "none";
    mode = codes "tunnel";
    dpd_action = codes "restart";
    if_id_in = parse_ipv4 ip;
    if_id_out = parse_ipv4 ip;
    mark_out = mark_of rec (parse_ipv4 ip);
  },
  record {
    only_child = refl;
    version = λ v q. ap (λ o. unwrap_or o 0) q;
    static_address = λ q. ap (λ o. (if unwrap_or o false then ip else codes "%any") ∷ []) q;
    any_address = λ q. ap (λ o. (if unwrap_or o false then ip else codes "%any") ∷ []) q;
    local_identity = refl;
    remote_identity = λ id q. ap (λ o. remote_id o (unwrap_or rec.static_ip false) ip) q;
    by_key = (refl, refl);
    ike = refl;
    esp = refl;
    remote_nets = λ ts q. ap (λ o. unwrap_or o (codes "0.0.0.0/0" ∷ [])) q;
    local_nets = λ ts q. ap (λ o. unwrap_or o (codes "0.0.0.0/0" ∷ [])) q;
    all_remote = λ q. ap (λ o. unwrap_or o (codes "0.0.0.0/0" ∷ [])) q;
    all_local = λ q. ap (λ o. unwrap_or o (codes "0.0.0.0/0" ∷ [])) q;
    interface_id = (refl, refl);
    mark = λ q. ap (λ o. if says_backend o then parse_ipv4 ip else none) q;
    no_mark = λ q. ap (λ o. if says_backend o then parse_ipv4 ip else none) q;
  },
)

module _ (e : Setup) where
  with_conn-Serves :
      (ip psk : Text) (record_of : Option SiteRecord) (r : Bool × Trace)
      → (r.0 ≡ true → secret_of (psk_id ip) r.1.requests ≡ some (psk, build_owners ip record_of))
      → (with_conn e ip record_of r).0 ≡ true
      → Serves e ip psk record_of (with_conn e ip record_of r).1.requests
  unfolding load_device_conn load_conn secret_of conn_of
  with_conn-Serves ip psk record_of (false, t) s h = absurd (ground (arith, h))
  with_conn-Serves ip psk none (true, t) s h = record {
    secret = s refl;
    owned = build_owners-Owned ip none;
    connection = λ rec q. absurd (ground (arith, q));
    asks = λ rec q. absurd (ground (arith, q));
  }
  with_conn-Serves ip psk (some rec) (true, t) s h = record {
    secret = s refl;
    owned = build_owners-Owned ip (some rec);
    asks = λ r q. site_config-AsksFor ip r e.local_ike_id;
    connection = λ r q.
        rw (text_eq_refl (conn_id ip))
          (rw h (ap (λ c. some (site_config ip c e.local_ike_id)) (cc q)));
  }

  -- Where a site's key is in Valkey and its load returns `Ok`, charon holds the key under the site's id
  -- with its owners, the address and the IKE identity if the record has one, and, where the record can
  -- be read, the connection that it asks for, with the record's identity, networks and proposals.
  pub load_one_device-Serves :
      (ip psk : Text) (t : Trace)
      → e.valkey_get (psk_prefix ++ ip) t ≡ Reply.reply (some psk)
      → (load_one_device e ip t).0 ≡ true
      → Serves e ip psk (get_site_record e ip t) (load_one_device e ip t).1.requests
  unfolding load_one_device load_shared secret_of
  load_one_device-Serves ip psk t v h =
      subst
        (λ r.
          (by_reply e ip r t).0 ≡ true
          → Serves e ip psk (get_site_record e ip t) (by_reply e ip r t).1.requests)
        (sym v)
        (λ g.
          with_conn-Serves ip psk (get_site_record e ip t)
            (asking
              (load_shared e.charon (psk_id ip) psk (build_owners ip (get_site_record e ip t))) t)
            (λ o. rw (text_eq_refl (psk_id ip)) (rw o refl)) g)
        h

  -- Whether charon takes the request to forget the site's key, and the one to forget its connection.
  abbrev pub key_forgotten : Text → Trace → Bool
  key_forgotten ip t = into_result (e.charon t.requests (shared_unloaded (psk_id ip)))

  abbrev pub conn_forgotten : Text → Trace → Bool
  conn_forgotten ip t =
      let first = e.charon t.requests (shared_unloaded (psk_id ip)) in
      into_result
        (e.charon ((shared_unloaded (psk_id ip), first) ∷ t.requests) (conn_unloaded (conn_id ip)))

  -- A site's unload returns `Ok` just where charon takes the request to forget its key. Then charon has
  -- no key of it, nor its connection if charon took that request; otherwise the connection is left as it
  -- was and no command is run.
  pub unload_one_device_effect :
      (ip : Text) (t : Trace)
      → ((unload_one_device e ip t).0 ≡ key_forgotten ip t)
        × ((unload_one_device e ip t).0 ≡ true
            → (secret_of (psk_id ip) (unload_one_device e ip t).1.requests ≡ none)
              × (conn_forgotten ip t ≡ true
                  → conn_of (conn_id ip) (unload_one_device e ip t).1.requests ≡ none))
        × ((unload_one_device e ip t).0 ≡ false
            → (conn_of (conn_id ip) (unload_one_device e ip t).1.requests
                ≡ conn_of (conn_id ip) t.requests)
              × ((unload_one_device e ip t).1.commands ≡ t.commands))
  unfolding unload_one_device unload_shared unload_conn secret_of conn_of
  unload_one_device_effect ip t = elim (Bool-cases (key_forgotten ip t)) [
    | inl k ↦ rw k (
      refl,
      (λ h. (
        rw (text_eq_refl (psk_id ip)) (rw k refl),
        λ c. rw (text_eq_refl (conn_id ip)) (rw c refl),
      )),
      (λ h. absurd (ground (arith, h))),
    )
    | inr k ↦ rw k (refl, (λ h. absurd (ground (arith, h))), (λ h. (refl, refl)))
  ]
