-- ===== src/Proxy/Decide/Tests.antt =====
-- The theorems on rules and verdicts at concrete lists of a Valkey that always answers.
use fleetsuite.Common.{
  ℕ, suc, ◌≡◌, refl, ◌≢◌, ◌↔◌, true, false, none, some, List, [], ◌∷◌, map, arith, ◌==◌,
  if◌then◌else◌, and_then, any,
}
use fleetsuite.Common.Text.{
  Text, codes, text_eq, texts_eq, split_once, strip_prefix, trim, trim_start_by, trim_end_by,
  to_ascii_lowercase, to_lower, is_whitespace, starts_with, ends_with, contains, split_by,
  parse_uint, read_digits,
}
use fleetsuite.Common.Split.{IsFree}
use fleetsuite.Common.Net.{parse_ipv4, octets_of, parse_octet}
use fleetsuite.Proxy.Args.{Args}
use fleetsuite.Proxy.Rule.{
  Nets, Rule, parse, rule_allows, host_matches, normal_host, normal_pattern, in_domain,
  dest_by_cidr, dest_by_dns, port_ok, proto_ok,
}
use fleetsuite.Proxy.Rule.Host.{Covers, host_matches_iff}
use fleetsuite.Proxy.Rule.Allows.{
  rule_allows_iff, Reaches, InPorts, PassesLabel, member_of, parse-member_of, is_tab,
}
use fleetsuite.Proxy.Store.{Store}
use fleetsuite.Proxy.Decide.{
  err, ok, decide, serve, verdict, tier_allows, model_allows, key_allows, request_of, is_absent,
  field,
}
use fleetsuite.Proxy.Decide.Served.{Lists, Serves, verdict_of, decide_served}
use fleetsuite.Proxy.Decide.Granted.{Namespace, Granted, decide_fails_closed}
use fleetsuite.Proxy.Decide.Loop.{AnswersAll, serve_answers}

-- Networks of one address, written with the length 32.
abbrev addresses : Nets
addresses = record {
  Addr = ℕ;
  Net = ℕ;
  parse_addr = parse_ipv4;
  parse_net = λ t. and_then (split_once 47 t) (λ p. parse_ipv4 p.0);
  net_contains = λ n a. n == a;
}

abbrev https_rule : Rule
https_rule = record {
  dns = codes "*.example.com";
  cidr = [];
  port_from = some 443;
  port_to = none;
  protocol = codes "HTTPS";
}

abbrev lists : Lists
lists = record {
  members = λ key.
      if text_eq key (codes "infoproxy:internet:global")
      then codes "*.example.com\t\t443\t\tHTTPS" ∷ []
      else [];
  partno = λ src. none;
}

abbrev answering : Store ℕ
answering = record {
  smembers = λ key s. (some (lists.members key), suc s);
  hget = λ key field s. (some none, suc s);
}

abbrev internet_args : Args
internet_args = record {
  proxy_type = codes "internet";
  valkey_url = [];
  tls_insecure = false;
  strict_proto = false;
  concurrent = true;
}

abbrev request : List Text
request =
    codes "10.0.0.5" ∷ codes "-" ∷ codes "443" ∷ codes "CONNECT" ∷ codes "www.example.com" ∷ []

answering-Serves : Serves addresses answering lists
answering-Serves = record { sets = λ key s. refl; hashes = λ src s. refl }

decide_served_example :
    (decide addresses answering internet_args request 0).0
    ≡ verdict_of addresses answering lists internet_args request
decide_served_example =
    decide_served addresses answering lists answering-Serves internet_args request 0

serve_answers_example :
    AnswersAll addresses answering internet_args
      (codes "7 10.0.0.5 - 443 CONNECT www.example.com" ∷ codes "  " ∷ [])
      (serve addresses answering internet_args
        (map
          (λ l. (some l, true))
          (codes "7 10.0.0.5 - 443 CONNECT www.example.com" ∷ codes "  " ∷ []))
        0).0
serve_answers_example =
    serve_answers addresses answering internet_args
      (codes "7 10.0.0.5 - 443 CONNECT www.example.com" ∷ codes "  " ∷ []) 0

is_tab-IsFree : (s : Text) → any is_tab s ≡ false → IsFree is_tab s
is_tab-IsFree [] e = tt
is_tab-IsFree (c ∷ s) e = (head, is_tab-IsFree s (ground arith))
  where
    head : is_tab c ≡ false
    head = ground arith

parse-member_of_example : parse (member_of https_rule) ≡ https_rule
parse-member_of_example =
    parse-member_of https_rule (is_tab-IsFree https_rule.dns refl) tt
      (is_tab-IsFree https_rule.protocol refl) (omega arith) tt

host_matches_iff_example :
    (host_matches (codes "*.example.com") (codes "www.example.com") ≡ true) ↔ (
      (normal_host (codes "www.example.com") ≢ [])
      × (normal_pattern (codes "*.example.com") ≢ [])
      × Covers (normal_pattern (codes "*.example.com")) (normal_host (codes "www.example.com")))
host_matches_iff_example = host_matches_iff (codes "*.example.com") (codes "www.example.com")

rule_allows_iff_example :
    (rule_allows addresses https_rule (request_of addresses answering request) true ≡ true) ↔ (
      Reaches addresses https_rule (request_of addresses answering request)
      × InPorts addresses https_rule (request_of addresses answering request)
      × PassesLabel addresses https_rule (request_of addresses answering request) true)
rule_allows_iff_example =
    rule_allows_iff addresses https_rule (request_of addresses answering request) true

allowed : (decide addresses answering internet_args request 0).0 ≡ ok
unfolding decide verdict tier_allows model_allows key_allows request_of rule_allows dest_by_cidr
    dest_by_dns port_ok proto_ok host_matches in_domain parse parse_uint read_digits split_by
    text_eq texts_eq normal_pattern strip_prefix trim_start_by normal_host trim trim_end_by
    to_ascii_lowercase to_lower is_whitespace starts_with ends_with contains parse_ipv4 split_once
    octets_of parse_octet
allowed = refl

not_refused : (decide addresses answering internet_args request 0).0 ≢ err
not_refused e = cc allowed

decide_fails_closed_example :
    (is_absent addresses answering (field addresses answering request 0) ≡ false)
    × ((pt : Text) × (Namespace internet_args
            (decide addresses answering internet_args request 0).0
            pt
          × Granted addresses answering pt
              (field addresses answering request 0)
              (request_of addresses answering request)
              false))
decide_fails_closed_example =
    decide_fails_closed addresses answering internet_args request 0 not_refused
