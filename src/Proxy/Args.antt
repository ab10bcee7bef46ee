-- ===== src/Proxy/Args.antt =====
-- squid-infoproxy/src/main.rs: the command line.
use fleetsuite.Common.{
  Bool, true, false, ◌||◌, Option, none, some, List, [], ◌∷◌, if◌then◌else◌, unwrap_or, map_option,
  and_then,
}
use fleetsuite.Common.Text.{Text, codes, text_eq}

pub record Args : Type 0 where
  pub proxy_type : Text
  pub valkey_url : Text
  pub tls_insecure : Bool
  pub strict_proto : Bool
  pub concurrent : Bool

-- The variables of the loop over the arguments.
record Parsed : Type 0 where
  type : Option Text
  url : Text
  insecure : Bool
  strict : Bool
  channels : Bool

-- `none` is a call of `usage`, which ends the process with status 2.
unfoldable parse_loop : Parsed → List Text → Option Parsed
parse_loop a [] = some a
parse_loop a (arg ∷ []) =
    if text_eq arg (codes "--proxy-type")
    then some (record a { type = none })
    else if text_eq arg (codes "--tls-insecure")
    then some (record a { insecure = true })
    else if text_eq arg (codes "--strict-proto")
    then some (record a { strict = true })
    else if text_eq arg (codes "--concurrent")
    then some (record a { channels = true })
    else none
parse_loop a (arg ∷ next ∷ rest) =
    let with_type = parse_loop (record a { type = some next }) rest in
    let with_url = parse_loop (record a { url = next }) rest in
    let insecure = parse_loop (record a { insecure = true }) (next ∷ rest) in
    let strict = parse_loop (record a { strict = true }) (next ∷ rest) in
    let concurrent = parse_loop (record a { channels = true }) (next ∷ rest) in
    if text_eq arg (codes "--proxy-type")
    then with_type
    else if text_eq arg (codes "--valkey-url")
    then with_url
    else if text_eq arg (codes "--tls-insecure")
    then insecure
    else if text_eq arg (codes "--strict-proto")
    then strict
    else if text_eq arg (codes "--concurrent")
    then concurrent
    else none

abbrev is_type : Text → Bool
is_type t =
    text_eq t (codes "intranet") || (text_eq t (codes "internet") || text_eq t (codes "both"))

abbrev to_args : Parsed → Option Text → Option Args
to_args a none = none
to_args a (some t) =
    if is_type t
    then some (record {
      proxy_type = t;
      valkey_url = a.url;
      tls_insecure = a.insecure;
      strict_proto = a.strict;
      concurrent = a.channels;
    })
    else none

-- The environment's VALKEY_URL and VALKEY_TLS_REJECT_UNAUTHORIZED, then the arguments.
unfoldable pub parse_args : Option Text → Option Text → List Text → Option Args
unfolding parse_loop
parse_args url reject args =
    and_then
      (parse_loop
        (record {
          type = none;
          url = unwrap_or url (codes "rediss://localhost:6380");
          insecure = unwrap_or (map_option (λ v. text_eq v (codes "false")) reject) false;
          strict = false;
          channels = false;
        })
        args)
      (λ a. to_args a a.type)
