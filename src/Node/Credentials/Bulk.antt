-- ===== src/Node/Credentials/Bulk.antt =====
-- ipsecnode/src/credentials.rs: what a finished bulk load leaves in charon (`bulk_load`).
use fleetsuite.Common.{
  ℕ, ◌≡◌, refl, sym, ap, subst, ◌∙◌, inl, inr, Bool, true, false, ◌||◌, Option, none, some, List,
  [], ◌∷◌, ◌++◌, arith, ◌==◌, if◌then◌else◌, Bool-cases, unwrap_or, any,
}
use fleetsuite.Common.Text.{Text, text_eq, text_eq_sound, strip_prefix, strip_prefix-append}
use fleetsuite.Node.Site.{SiteRecord}
use fleetsuite.Node.Host.{Reply}
use fleetsuite.Node.Vici.{Requests, Request, into_result, load_shared, load_conn}
use fleetsuite.Node.Credentials.{
  Trace, Setup, Counts, scanned, counted, psk_prefix, site_prefix, psk_id, site_of, asking,
  build_owners, get_site_record, with_conn, by_reply, load_device_conn, load_one_device, load_keys,
  bulk_load,
}
use fleetsuite.Node.Credentials.Loaded.{Serves, load_one_device-Serves}
use fleetsuite.Node.Credentials.Dispatch.{Untouched, load_one_device-Untouched}

-- The keys of the replies up to the one whose cursor is 0.
unfoldable pub keys_read : List (Option (ℕ × List Text)) → List Text
keys_read [] = []
keys_read (none ∷ pages) = []
keys_read (some (cursor, keys) ∷ pages) =
    let more = keys ++ keys_read pages in if cursor == 0 then keys else more

-- Charon takes every request, and Valkey, which answers, does not change meanwhile.
pub record Steady (e : Setup) (db : Text → Option Text) : Type 0 where
  pub takes : (log : Requests) (r : Request) → into_result (e.charon log r) ≡ true
  pub still : (key : Text) (t : Trace) → e.valkey_get key t ≡ Reply.reply (db key)

-- The record that Valkey has of a site.
abbrev pub site_in : Setup → (Text → Option Text) → Text → Option SiteRecord
site_in e db ip = site_of e.decode (Reply.reply (db (site_prefix ++ ip)))

module _ (e : Setup) (db : Text → Option Text) (steady : Steady e db) where
  with_conn-ok :
      (ip : Text) (o : Option SiteRecord) (r : Bool × Trace)
      → r.0 ≡ true
      → (with_conn e ip o r).0 ≡ true
  unfolding load_device_conn load_conn
  with_conn-ok ip o (false, t) h = h
  with_conn-ok ip none (true, t) h = refl
  with_conn-ok ip (some rec) (true, t) h = steady.takes t.requests _

  by_reply-ok :
      (ip : Text) (o : Option Text) (t : Trace) → (by_reply e ip (Reply.reply o) t).0 ≡ true
  unfolding load_shared
  by_reply-ok ip none t = refl
  by_reply-ok ip (some psk) t =
      let record_of = get_site_record e ip t in
      with_conn-ok ip record_of
        (asking (load_shared e.charon (psk_id ip) psk (build_owners ip record_of)) t)
        (steady.takes t.requests _)

  load-ok : (ip : Text) (t : Trace) → (load_one_device e ip t).0 ≡ true
  unfolding load_one_device
  load-ok ip t =
      subst (λ r. (by_reply e ip r t).0 ≡ true) (sym (steady.still (psk_prefix ++ ip) t))
        (by_reply-ok ip (db (psk_prefix ++ ip)) t)

  module _ (ip psk : Text) (held : db (psk_prefix ++ ip) ≡ some psk) where
    abbrev Ready : Trace → Type 0
    Ready t = Serves e ip psk (site_in e db ip) t.requests

    load-Ready : (t : Trace) → Ready (load_one_device e ip t).1
    load-Ready t =
        subst (λ r. Serves e ip psk (site_of e.decode r) (load_one_device e ip t).1.requests)
          (steady.still (site_prefix ++ ip) t)
          (load_one_device-Serves e ip psk t
            (steady.still (psk_prefix ++ ip) t ∙ ap Reply.reply held) (load-ok ip t))

    keeps-Ready : (device : Text) (t : Trace) → Ready t → Ready (load_one_device e device t).1
    keeps-Ready device t r = elim (Bool-cases (text_eq ip device)) [
      | inl q ↦
          subst (λ d. Ready (load_one_device e d t).1) (text_eq_sound ip device q) (load-Ready t)
      | inr q ↦ carried (load_one_device-Untouched e ip device q t)
    ]
      where
        carried :
            Untouched ip t (load_one_device e device t).1 → Ready (load_one_device e device t).1
        carried u = record {
          secret = u.same_secret ∙ r.secret;
          owned = r.owned;
          asks = r.asks;
          connection = λ rec q. u.same_conn ∙ r.connection rec q;
        }

    counted-trace : (ok : Bool) (b : Counts) → Ready b.trace → Ready (counted ok b).trace
    counted-trace true b r = r
    counted-trace false b r = r

    load_keys-keeps :
        (keys : List Text) (b : Counts) → Ready b.trace → Ready (load_keys e keys b).trace
    unfolding load_keys
    load_keys-keeps [] b r = r
    load_keys-keeps (key ∷ keys) b r =
        let loaded = load_one_device e (unwrap_or (strip_prefix psk_prefix key) key) b.trace in
        load_keys-keeps keys (counted loaded.0 (record b { trace = loaded.1 })) (
          counted-trace loaded.0 (record b { trace = loaded.1 })
            (keeps-Ready (unwrap_or (strip_prefix psk_prefix key) key) b.trace r))

    load_keys-Ready :
        (keys : List Text) (b : Counts)
        → any (text_eq (psk_prefix ++ ip)) keys ≡ true
        → Ready (load_keys e keys b).trace
    unfolding load_keys
    load_keys-Ready [] b h = absurd (ground (arith, h))
    load_keys-Ready (key ∷ keys) b h = elim (Bool-cases (text_eq (psk_prefix ++ ip) key)) [
      | inr q ↦
          load_keys-Ready keys (counted loaded.0 (record b { trace = loaded.1 }))
            (subst (λ c. (c || any (text_eq (psk_prefix ++ ip)) keys) ≡ true) q h)
      | inl q ↦ load_keys-keeps keys (counted loaded.0 (record b { trace = loaded.1 })) (
          counted-trace loaded.0 (record b { trace = loaded.1 })
            (subst (λ d. Ready (load_one_device e d b.trace).1) (device q) (load-Ready b.trace)))
    ]
      where
        loaded : Bool × Trace
        loaded = load_one_device e (unwrap_or (strip_prefix psk_prefix key) key) b.trace

        device :
            text_eq (psk_prefix ++ ip) key ≡ true → ip ≡ unwrap_or (strip_prefix psk_prefix key) key
        device q =
            subst (λ k. ip ≡ unwrap_or (strip_prefix psk_prefix k) k)
              (text_eq_sound (psk_prefix ++ ip) key q)
              (sym (ap (λ o. unwrap_or o (psk_prefix ++ ip)) (strip_prefix-append psk_prefix ip)))

  load_keys-append :
      (xs ys : List Text) (b : Counts)
      → load_keys e (xs ++ ys) b ≡ load_keys e ys (load_keys e xs b)
  unfolding load_keys
  load_keys-append [] ys b = refl
  load_keys-append (key ∷ xs) ys b =
      let loaded = load_one_device e (unwrap_or (strip_prefix psk_prefix key) key) b.trace in
      load_keys-append xs ys (counted loaded.0 (record b { trace = loaded.1 }))

  bulk_load-keys :
      (pages : List (Option (ℕ × List Text))) (b c : Counts)
      → bulk_load e pages b ≡ scanned c
      → c ≡ load_keys e (keys_read pages) b
  unfolding bulk_load keys_read
  bulk_load-keys [] b c h = absurd (ground (arith, h))
  bulk_load-keys (none ∷ pages) b c h = absurd (ground (arith, h))
  bulk_load-keys (some (cursor, keys) ∷ pages) b c h = elim (Bool-cases (cursor == 0)) [
    | inl q ↦ rw q (
        cc (
          sym (
            subst
              (λ t.
                (if t then scanned (load_keys e keys b) else bulk_load e pages (load_keys e keys b))
                ≡ scanned c)
              q h)))
    | inr q ↦ rw q (
        bulk_load-keys pages (load_keys e keys b) c (
          subst
            (λ t.
              (if t then scanned (load_keys e keys b) else bulk_load e pages (load_keys e keys b))
              ≡ scanned c)
            q h)
        ∙ sym (load_keys-append keys (keys_read pages) b))
  ]

  -- Where charon takes every request and Valkey answers and does not change, a bulk load that reaches the
  -- end of the scan leaves every site whose key is on one of the replies served: charon has its key, its
  -- owners and the connection of its record.
  pub bulk_load-Serves :
      (pages : List (Option (ℕ × List Text))) (b c : Counts) (ip psk : Text)
      → bulk_load e pages b ≡ scanned c
      → any (text_eq (psk_prefix ++ ip)) (keys_read pages) ≡ true
      → db (psk_prefix ++ ip) ≡ some psk
      → Serves e ip psk (site_in e db ip) c.trace.requests
  bulk_load-Serves pages b c ip psk h k d =
      subst (λ x. Serves e ip psk (site_in e db ip) x.trace.requests)
        (sym (bulk_load-keys pages b c h)) (load_keys-Ready ip psk d (keys_read pages) b k)
