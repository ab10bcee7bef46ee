-- ===== src/Proxy/Url.antt =====
-- squid-infoproxy/src/valkey.rs: the settings of the Valkey client, read from a URL.
pub mod RoundTrip
mod Tests
use fleetsuite.Common.{
  ℕ, zero, suc, ◌+◌, ◌-◌, ◌*◌, ◌/◌, ◌%◌, ◌^◌, ◌≤◌, ◌<◌, ◌≡◌, refl, sym, ap, ap₂, subst, ◌∙◌, ◌≢◌,
  ◌↔◌, ◌⊎◌, inl, inr, Bool, true, false, not, ◌&&◌, ◌||◌, Option, none, some, List, [], ◌∷◌, ◌++◌,
  map, arith, ltb, leb, ◌==◌, if◌then◌else◌, ==_iff, Bool-cases, Option-cases, is_some, unwrap_or,
  map_option, and_then, length, get_elem?, any, all, find, filter, is_empty, All, length-append,
  filter_map, cons_some, flat_map, All-append, All-intro, All-mono, All-filter_map, All-flat_map,
}
use fleetsuite.Common.Text.{
  Text, codes, text_eq, split_once, rsplit_once, split_once_at, parse_uint,
}

pub record ValkeyConfig : Type 0 where
  pub tls : Bool
  pub tls_insecure : Bool
  pub host : Text
  pub port : ℕ
  pub username : Option Text
  pub password : Option Text
  pub db : Option ℕ

unfoldable pub tls_of : Text → Option Bool
tls_of scheme =
    if text_eq scheme (codes "rediss") || text_eq scheme (codes "valkeys")
    then some true
    else if text_eq scheme (codes "redis") || text_eq scheme (codes "valkey")
    then some false
    else none

-- The part before the last `@`, if there is one.
abbrev pub userinfo_of : Text → Option (Text × Text) → Option Text × Text
userinfo_of rest none = (none, rest)
userinfo_of rest (some (u, h)) = (some u, h)

abbrev pub named : Text → Option (Text × Text) → Option Text × Option Text
named ui none = (some ui, none)
named ui (some (u, p)) = (if is_empty u then none else some u, some p)

abbrev pub credentials_of : Option Text → Option Text × Option Text
credentials_of none = (none, none)
credentials_of (some ui) = named ui (split_once b':' ui)

-- The host with its port, and the database; `none` is an error.
abbrev pub db_of : Text → Option (Text × Text) → Option (Text × Option ℕ)
db_of hostpart none = some (hostpart, none)
db_of hostpart (some (hp, d)) =
    if is_empty d then some (hp, none) else map_option (λ n. (hp, some n)) (parse_uint 4294967295 d)

abbrev pub port_of : Text → Option (Text × Text) → Option (Text × ℕ)
port_of hostport none = some (hostport, 6379)
port_of hostport (some (h, p)) = map_option (λ n. (h, n)) (parse_uint 65535 p)

abbrev pub config_of :
    Bool → Bool → Option Text × Option Text → Option ℕ → Text × ℕ → Option ValkeyConfig
config_of tls tls_insecure credentials db (host, port) =
    if is_empty host
    then none
    else some (record {
      tls = tls;
      tls_insecure = tls_insecure;
      host = host;
      port = port;
      username = credentials.0;
      password = credentials.1;
      db = db;
    })

abbrev pub at_host : Bool → Bool → Option Text × Option Text → Text × Option ℕ → Option ValkeyConfig
at_host tls tls_insecure credentials (hostport, db) =
    and_then (port_of hostport (rsplit_once b':' hostport))
      (config_of tls tls_insecure credentials db)

abbrev pub after_userinfo : Bool → Bool → Option Text × Text → Option ValkeyConfig
after_userinfo tls tls_insecure (userinfo, hostpart) =
    and_then (db_of hostpart (split_once b'/' hostpart))
      (at_host tls tls_insecure (credentials_of userinfo))

abbrev pub after_scheme : Bool → Text × Text → Option ValkeyConfig
after_scheme tls_insecure (scheme, rest) =
    and_then (tls_of scheme)
      (λ tls. after_userinfo tls tls_insecure (userinfo_of rest (rsplit_once b'@' rest)))

-- `ValkeyConfig::parse`.
unfoldable pub parse_url : Text → Bool → Option ValkeyConfig
parse_url url tls_insecure = and_then (split_once_at (codes "://") url) (after_scheme tls_insecure)
