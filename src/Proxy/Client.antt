-- ===== src/Proxy/Client.antt =====
-- squid-infoproxy/src/valkey.rs: the client, which connects on demand and reconnects once where a
-- query fails.
pub mod Stale
pub mod Dials
mod Tests
use fleetsuite.Common.{
  ℕ, zero, suc, ◌+◌, ◌-◌, ◌*◌, ◌/◌, ◌%◌, ◌^◌, ◌≤◌, ◌<◌, ◌≡◌, refl, sym, ap, ap₂, subst, ◌∙◌, ◌≢◌,
  ◌↔◌, ◌⊎◌, inl, inr, Bool, true, false, not, ◌&&◌, ◌||◌, Option, none, some, List, [], ◌∷◌, ◌++◌,
  map, arith, ltb, leb, ◌==◌, if◌then◌else◌, ==_iff, Bool-cases, Option-cases, is_some, unwrap_or,
  map_option, and_then, length, get_elem?, any, all, find, filter, is_empty, All, length-append,
  filter_map, cons_some, flat_map, All-append, All-intro, All-mono, All-filter_map, All-flat_map,
}
use fleetsuite.Common.Text.{Text, codes, show_nat}
use fleetsuite.Proxy.Store.{Store}
use fleetsuite.Proxy.Url.{ValkeyConfig}
use fleetsuite.Proxy.Resp.{
  Utf8, Kind, Result, ok, error, panicked, out_of_fuel, Value, Values, simple_string, error_string,
  int, bulk, array, nil, cons, Act, return, fail, ◌>>=◌, send, read_value, expect_ok,
  permission_denied, invalid_data, other, system,
}

-- The other end of a connection: what it sends on what was written so far, the last buffer first;
-- `none` where the write fails.
abbrev pub Peer : Type 0
Peer = List (List ℕ) → Option (List ℕ)

pub record RespConn : Type 0 where
  pub peer : Peer
  pub written : List (List ℕ)
  pub incoming : List ℕ

-- `dials` counts the attempts to connect.
pub record Valkey : Type 0 where
  pub conn : Option RespConn
  pub dials : ℕ

unfoldable pub answered : Option (List ℕ) → List ℕ → RespConn → Result Unit × RespConn
answered none buf c =
    (error system, record { peer = c.peer; written = buf ∷ c.written; incoming = c.incoming })
answered (some b) buf c =
    (ok tt, record { peer = c.peer; written = buf ∷ c.written; incoming = c.incoming ++ b })

unfoldable pub send_on : List (List ℕ) → Act RespConn Unit
unfolding send answered
send_on args c = answered (c.peer (send args ∷ c.written)) (send args) c

unfoldable pub read_with : {A : Type 0} → (ℕ → Act (List ℕ) A) → Act RespConn A
read_with read c =
    let r = read (suc (length c.incoming)) c.incoming in
    (r.0, record { peer = c.peer; written = c.written; incoming = r.1 })

-- `Valkey::new`.
unfoldable pub new_client : Valkey
new_client = record { conn = none; dials = 0 }

-- A denial is not retried.
abbrev pub is_denied : Kind → Bool
is_denied permission_denied = true
is_denied _ = false

module _ (utf8 : Utf8) (cfg : ValkeyConfig) (dial : ℕ → Result Peer) where
  abbrev command : List Text → List (List ℕ)
  command words = map utf8.encode words

  unfoldable pub ok_to : List Text → Act RespConn Unit
  unfolding send_on ◌>>=◌ read_with expect_ok
  ok_to words = send_on (command words) >>= (λ u. read_with (expect_ok utf8))

  unfoldable pub auth : Option Text → Option Text → Act RespConn Unit
  unfolding return ok_to
  auth user none = return tt
  auth none (some pass) = ok_to (codes "AUTH" ∷ pass ∷ [])
  auth (some user) (some pass) = ok_to (codes "AUTH" ∷ user ∷ pass ∷ [])

  unfoldable pub select : Option ℕ → Act RespConn Unit
  unfolding return ok_to show_nat
  select none = return tt
  select (some db) = ok_to (codes "SELECT" ∷ show_nat db ∷ [])

  unfoldable pub login : Act RespConn Unit
  unfolding ◌>>=◌ auth select
  login = auth cfg.username cfg.password >>= (λ u. select cfg.db)

  abbrev logged_in : Result Unit × RespConn → Result RespConn
  logged_in (ok u, c) = ok c
  logged_in (error k, c) = error k
  logged_in (panicked, c) = panicked
  logged_in (out_of_fuel, c) = out_of_fuel

  abbrev dialled : Result Peer → Result RespConn
  unfolding login
  dialled (ok peer) = logged_in (login (record { peer = peer; written = []; incoming = [] }))
  dialled (error k) = error k
  dialled panicked = panicked
  dialled out_of_fuel = out_of_fuel

  unfoldable pub connect : ℕ → Result RespConn
  unfolding login
  connect n = dialled (dial n)

  abbrev connected : ℕ → Result RespConn → Result RespConn × Valkey
  connected n (ok c) = (ok c, record { conn = some c; dials = n })
  connected n (error k) = (error k, record { conn = none; dials = n })
  connected n panicked = (panicked, record { conn = none; dials = n })
  connected n out_of_fuel = (out_of_fuel, record { conn = none; dials = n })

  abbrev ensure_from : Option RespConn → ℕ → Result RespConn × Valkey
  ensure_from (some c) n = (ok c, record { conn = some c; dials = n })
  ensure_from none n = connected (suc n) (connect n)

  unfoldable pub ensure : Valkey → Result RespConn × Valkey
  unfolding connect
  ensure v = ensure_from v.conn v.dials

  abbrev stored : {A : Type 0} → ℕ → Result A × RespConn → Result A × Valkey
  stored n r = (r.0, record { conn = some r.1; dials = n })

  abbrev on_connection :
      {A : Type 0} → Act RespConn A → Result RespConn × Valkey → Result A × Valkey
  on_connection act (ok c, v) = stored v.dials (act c)
  on_connection act (error k, v) = (error k, v)
  on_connection act (panicked, v) = (panicked, v)
  on_connection act (out_of_fuel, v) = (out_of_fuel, v)

  unfoldable pub once : {A : Type 0} → Act RespConn A → Act Valkey A
  unfolding ensure
  once act v = on_connection act (ensure v)

  abbrev again : {A : Type 0} → Act Valkey A → Result A × Valkey → Result A × Valkey
  again attempt (ok a, v) = (ok a, v)
  again attempt (error k, v) =
      if is_denied k then (error k, v) else attempt (record { conn = none; dials = v.dials })
  again attempt (panicked, v) = (panicked, v)
  again attempt (out_of_fuel, v) = (out_of_fuel, v)

  unfoldable pub with_retry : {A : Type 0} → Act Valkey A → Act Valkey A
  with_retry attempt v = again attempt (attempt v)

  abbrev member : Value → Option Text
  member (bulk (some b)) = some (utf8.decode b)
  member (bulk none) = none
  member (simple_string s) = some s
  member (error_string s) = none
  member (int n) = none
  member (array vs) = none

  unfoldable pub members : Values → List Text
  members nil = []
  members (cons v vs) = cons_some (member v) (members vs)

  unfoldable pub smembers_reply : Value → Result (List Text)
  unfolding members
  smembers_reply (array vs) = ok (members vs)
  smembers_reply (error_string s) = error other
  smembers_reply (bulk none) = ok []
  smembers_reply (bulk (some b)) = error invalid_data
  smembers_reply (simple_string s) = error invalid_data
  smembers_reply (int n) = error invalid_data

  unfoldable pub hget_reply : Value → Result (Option Text)
  hget_reply (bulk (some b)) = ok (some (utf8.decode b))
  hget_reply (bulk none) = ok none
  hget_reply (simple_string s) = ok (some s)
  hget_reply (error_string s) = error other
  hget_reply (array vs) = error invalid_data
  hget_reply (int n) = error invalid_data

  unfoldable pub query : {A : Type 0} → List Text → (Value → Result A) → Act RespConn A
  unfolding ◌>>=◌ send_on read_with
  query words interpret =
      send_on (command words) >>= (λ u. read_with (read_value utf8)) >>= (λ v c. (interpret v, c))

  unfoldable pub smembers_once : Text → Act Valkey (List Text)
  unfolding once query smembers_reply
  smembers_once key = once (query (codes "SMEMBERS" ∷ key ∷ []) smembers_reply)

  unfoldable pub smembers : Text → Act Valkey (List Text)
  unfolding with_retry smembers_once
  smembers key = with_retry (smembers_once key)

  unfoldable pub hget_once : Text → Text → Act Valkey (Option Text)
  unfolding once query hget_reply
  hget_once key field = once (query (codes "HGET" ∷ key ∷ field ∷ []) hget_reply)

  unfoldable pub hget : Text → Text → Act Valkey (Option Text)
  unfolding with_retry hget_once
  hget key field = with_retry (hget_once key field)

  abbrev result_of : {A : Type 0} → Result A → Option A
  result_of (ok a) = some a
  result_of (error k) = none
  result_of panicked = none
  result_of out_of_fuel = none

  -- The client as the helper uses it, to which every error is the same. A call that panics ends the
  -- program, so that only runs without a panic are those of a store; here it is told as an error.
  unfoldable pub store : Store Valkey
  unfolding smembers hget
  store = record {
    smembers = λ key v. (result_of (smembers key v).0, (smembers key v).1);
    hget = λ key field v. (result_of (hget key field v).0, (hget key field v).1);
  }
