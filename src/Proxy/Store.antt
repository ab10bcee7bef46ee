-- ===== src/Proxy/Store.antt =====
-- squid-infoproxy: what the helper asks of its Valkey client (squid-infoproxy/src/valkey.rs,
-- `smembers` and `hget`): a reply or an error, and the client's new state.
use fleetsuite.Common.{List, Option}
use fleetsuite.Common.Text.{Text}

-- `none` is an error. Each call returns: a client that panics is no store.
pub record Store (S : Type 0) : Type 0 where
  pub smembers : Text → S → Option (List Text) × S
  pub hget : Text → Text → S → Option (Option Text) × S
