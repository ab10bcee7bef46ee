-- ===== src/Proxy/Client/Dials.antt =====
-- squid-infoproxy/src/valkey.rs: how often a query connects.
use fleetsuite.Common.{ℕ, suc, ◌+◌, ◌≤◌, Option, none, some, [], ◌∷◌, arith}
use fleetsuite.Common.Text.{Text, codes}
use fleetsuite.Proxy.Url.{ValkeyConfig}
use fleetsuite.Proxy.Resp.{Utf8, Result, ok, error, panicked, out_of_fuel, Act}
use fleetsuite.Proxy.Client.{
  Peer, RespConn, Valkey, connect, connected, ensure, ensure_from, once, on_connection, with_retry,
  again, smembers, smembers_once, hget, hget_once, hget_reply, smembers_reply, query,
}

module _ (utf8 : Utf8) (cfg : ValkeyConfig) (dial : ℕ → Result Peer) where
  abbrev Within : {A : Type 0} → ℕ → ℕ → Result A × Valkey → Type 0
  Within n k r = (n ≤ r.1.dials) × (r.1.dials ≤ n + k)

  connected-dials : (n : ℕ) (r : Result RespConn) → Within n 1 (connected utf8 cfg dial (suc n) r)
  connected-dials n (ok c) = omega arith
  connected-dials n (error k) = omega arith
  connected-dials n panicked = omega arith
  connected-dials n out_of_fuel = omega arith

  ensure-dials : (v : Valkey) → Within v.dials 1 (ensure utf8 cfg dial v)
  unfolding ensure
  ensure-dials v = by_conn v.conn
    where
      by_conn : (o : Option RespConn) → Within v.dials 1 (ensure_from utf8 cfg dial o v.dials)
      by_conn none = connected-dials v.dials (connect utf8 cfg dial v.dials)
      by_conn (some c) = omega arith

  on_connection-dials :
      {A : Type 0} (act : Act RespConn A) (n k : ℕ) (r : Result RespConn × Valkey)
      → Within n k r
      → Within n k (on_connection utf8 cfg dial act r)
  on_connection-dials act n k (ok c, v) h = h
  on_connection-dials act n k (error e, v) h = h
  on_connection-dials act n k (panicked, v) h = h
  on_connection-dials act n k (out_of_fuel, v) h = h

  once-dials :
      {A : Type 0} (act : Act RespConn A) (v : Valkey) → Within v.dials 1 (once utf8 cfg dial act v)
  unfolding once
  once-dials act v = on_connection-dials act v.dials 1 (ensure utf8 cfg dial v) (ensure-dials v)

  again-dials :
      {A : Type 0} (attempt : Act Valkey A) (n : ℕ) (r : Result A × Valkey)
      → ((v : Valkey) → Within v.dials 1 (attempt v))
      → Within n 1 r
      → Within n 2 (again utf8 cfg dial attempt r)
  again-dials attempt n (ok a, v) f h = omega (arith, h)
  again-dials attempt n (error k, v) f h =
      ground (arith, h, f (record { conn = none; dials = v.dials }))
  again-dials attempt n (panicked, v) f h = omega (arith, h)
  again-dials attempt n (out_of_fuel, v) f h = omega (arith, h)

  with_retry-dials :
      {A : Type 0} (act : Act RespConn A) (v : Valkey)
      → Within v.dials 2 (with_retry utf8 cfg dial (once utf8 cfg dial act) v)
  unfolding with_retry
  with_retry-dials act v =
      again-dials (once utf8 cfg dial act) v.dials (once utf8 cfg dial act v) (once-dials act)
        (once-dials act v)

  -- Whatever the server does, a query for a set's members tries to connect twice at most, and so does
  -- one for a field.
  pub queries_dial_twice :
      (v : Valkey) (key field : Text)
      → ((smembers utf8 cfg dial key v).1.dials ≤ v.dials + 2)
        × ((hget utf8 cfg dial key field v).1.dials ≤ v.dials + 2)
  unfolding smembers smembers_once hget hget_once
  queries_dial_twice v key field = (
    (with_retry-dials
        (query utf8 cfg dial (codes "SMEMBERS" ∷ key ∷ []) (smembers_reply utf8 cfg dial)) v).1,
    (with_retry-dials
        (query utf8 cfg dial (codes "HGET" ∷ key ∷ field ∷ []) (hget_reply utf8 cfg dial)) v).1,
  )
