-- ===== src/Node/Credentials/Dispatch.antt =====
-- ipsecnode/src/credentials.rs: what a message concerns (`run_pubsub_loop`).
use fleetsuite.Common.{
  ◌≡◌, refl, sym, ap, ◌∙◌, ◌≢◌, inl, inr, Bool, true, false, ◌||◌, Option, none, some, List, [],
  ◌∷◌, ◌++◌, Bool-cases, Option-cases, All,
}
use fleetsuite.Common.Text.{Text, codes, text_eq, strip_prefix, strip_prefix_sound, ends_with}
use fleetsuite.Common.Assoc.{text_neq}
use fleetsuite.Node.Site.{SiteRecord}
use fleetsuite.Node.Host.{Reply}
use fleetsuite.Node.Vici.{conn_id, load_shared, unload_shared, load_conn, unload_conn}
use fleetsuite.Node.Credentials.{
  Trace, Setup, psk_prefix, site_prefix, psk_id, build_owners, get_site_record, asking, with_conn,
  by_reply, load_one_device, load_device_conn, conn_removed, unload_one_device, reload,
  handle_psk_event, handle_site_event, on_message, run_pubsub_loop,
}
use fleetsuite.Node.Credentials.Loaded.{secret_of, conn_of}

-- Charon holds the same for the site.
pub record Untouched (ip : Text) (t u : Trace) : Type 0 where
  pub same_secret : secret_of (psk_id ip) u.requests ≡ secret_of (psk_id ip) t.requests
  pub same_conn : conn_of (conn_id ip) u.requests ≡ conn_of (conn_id ip) t.requests

trans-Untouched :
    (ip : Text) (t u v : Trace) → Untouched ip t u → Untouched ip u v → Untouched ip t v
trans-Untouched ip t u v a b = record {
  same_secret = b.same_secret ∙ a.same_secret;
  same_conn = b.same_conn ∙ a.same_conn;
}

refl-Untouched : (ip : Text) (t : Trace) → Untouched ip t t
refl-Untouched ip t = record { same_secret = refl; same_conn = refl }

module _ (e : Setup) (ip other : Text) (differ : text_eq ip other ≡ false) where
  load_shared-Untouched :
      (psk : Text) (owners : List Text) (t : Trace)
      → Untouched ip t (asking (load_shared e.charon (psk_id other) psk owners) t).1
  unfolding load_shared secret_of conn_of text_eq
  load_shared-Untouched psk owners t = record { same_secret = rw differ refl; same_conn = refl }

  unload_shared-Untouched :
      (t : Trace) → Untouched ip t (asking (unload_shared e.charon (psk_id other)) t).1
  unfolding unload_shared secret_of conn_of text_eq
  unload_shared-Untouched t = record { same_secret = rw differ refl; same_conn = refl }

  unload_conn-Untouched :
      (t : Trace) → Untouched ip t (asking (unload_conn e.charon (conn_id other)) t).1
  unfolding unload_conn secret_of conn_of text_eq
  unload_conn-Untouched t = record { same_secret = refl; same_conn = rw differ refl }

  load_device_conn-Untouched :
      (rec : SiteRecord) (t : Trace) → Untouched ip t (load_device_conn e other rec t).1
  unfolding load_device_conn load_conn secret_of conn_of text_eq
  load_device_conn-Untouched rec t = record { same_secret = refl; same_conn = rw differ refl }

  with_conn-Untouched :
      (o : Option SiteRecord) (t : Trace) (r : Bool × Trace)
      → Untouched ip t r.1
      → Untouched ip t (with_conn e other o r).1
  with_conn-Untouched o t (false, u) h = h
  with_conn-Untouched none t (true, u) h = h
  with_conn-Untouched (some rec) t (true, u) h =
      trans-Untouched ip t u (load_device_conn e other rec u).1 h (load_device_conn-Untouched rec u)

  by_reply-Untouched : (r : Reply) (t : Trace) → Untouched ip t (by_reply e other r t).1
  by_reply-Untouched Reply.failed t = refl-Untouched ip t
  by_reply-Untouched (Reply.reply none) t = refl-Untouched ip t
  by_reply-Untouched (Reply.reply (some psk)) t =
      let o = get_site_record e other t in
      with_conn-Untouched o t
        (asking (load_shared e.charon (psk_id other) psk (build_owners other o)) t)
        (load_shared-Untouched psk (build_owners other o) t)

  pub load_one_device-Untouched : (t : Trace) → Untouched ip t (load_one_device e other t).1
  unfolding load_one_device
  load_one_device-Untouched t = by_reply-Untouched (e.valkey_get (psk_prefix ++ other) t) t

  conn_removed-Untouched :
      (t : Trace) (r : Bool × Trace)
      → Untouched ip t r.1
      → Untouched ip t (conn_removed e other r).1
  conn_removed-Untouched t (false, u) h = h
  conn_removed-Untouched t (true, u) h =
      let gone =
        trans-Untouched ip t u (asking (unload_conn e.charon (conn_id other)) u).1 h
          (unload_conn-Untouched u) in
      record { same_secret = gone.same_secret; same_conn = gone.same_conn }

  unload_one_device-Untouched : (t : Trace) → Untouched ip t (unload_one_device e other t).1
  unfolding unload_one_device
  unload_one_device-Untouched t =
      conn_removed-Untouched t (asking (unload_shared e.charon (psk_id other)) t)
        (unload_shared-Untouched t)

  reload-Untouched : (t : Trace) → Untouched ip t (reload e other t)
  reload-Untouched t = elim (Bool-cases (e.connects t)) [
    | inl c ↦ rw c (load_one_device-Untouched t)
    | inr c ↦ rw c (refl-Untouched ip t)
  ]

  handle_psk_event-Untouched :
      (is_set is_del : Bool) (t : Trace) → Untouched ip t (handle_psk_event e other is_set is_del t)
  unfolding handle_psk_event
  handle_psk_event-Untouched true is_del t = reload-Untouched t
  handle_psk_event-Untouched false true t = unload_one_device-Untouched t
  handle_psk_event-Untouched false false t = refl-Untouched ip t

  handle_site_event-Untouched : (t : Trace) → Untouched ip t (handle_site_event e other t)
  unfolding handle_site_event
  handle_site_event-Untouched t =
      let u = (asking (unload_conn e.charon (conn_id other)) t).1 in
      trans-Untouched ip t u (reload e other u) (unload_conn-Untouched t) (reload-Untouched u)

-- The message's key is neither that of the site's key nor that of its record.
pub record Foreign (ip key : Text) : Type 0 where
  pub not_psk : key ≢ (psk_prefix ++ ip)
  pub not_site : key ≢ (site_prefix ++ ip)

module _ (e : Setup) where
  psk_or_site-Untouched :
      (ip channel key : Text) (t : Trace)
      → Foreign ip key
      → Untouched ip t (on_message e channel key t)
  unfolding on_message
  psk_or_site-Untouched ip channel key t f = elim (Option-cases (strip_prefix psk_prefix key)) [
    | inr (other, q) ↦ rw q (
        handle_psk_event-Untouched e ip other
          (text_neq ip other (λ n.
            f.not_psk
              (strip_prefix_sound psk_prefix key other q ∙ ap (λ x. psk_prefix ++ x) (sym n))))
          (ends_with (codes ":set") channel)
          (ends_with (codes ":del") channel || ends_with (codes ":expired") channel) t)
    | inl q ↦ rw q (elim (Option-cases (strip_prefix site_prefix key)) [
      | inr (other, p) ↦ rw p (
          handle_site_event-Untouched e ip other
            (text_neq ip other (λ n.
              f.not_site
                (strip_prefix_sound site_prefix key other p ∙ ap (λ x. site_prefix ++ x) (sym n))))
            t)
      | inl p ↦ rw p (refl-Untouched ip t)
    ])
  ]

  -- A message on another key leaves charon's key and connection of a site as they were, and so does any
  -- sequence of such messages.
  pub run_pubsub_loop-Untouched :
      (ip : Text) (messages : List (Text × Text)) (t : Trace)
      → All (λ m. Foreign ip m.1) messages
      → Untouched ip t (run_pubsub_loop e messages t)
  unfolding run_pubsub_loop
  run_pubsub_loop-Untouched ip [] t f = refl-Untouched ip t
  run_pubsub_loop-Untouched ip ((channel, key) ∷ messages) t f =
      let u = on_message e channel key t in
      trans-Untouched ip t u (run_pubsub_loop e messages u)
        (psk_or_site-Untouched ip channel key t f.0) (run_pubsub_loop-Untouched ip messages u f.1)
