-- ===== src/Scale/Tests.antt =====
-- The theorems on the watcher at rounds with two nodes and two proxies.
use fleetsuite.Common.{List, ◌/◌, ◌^◌, ◌-◌, ◌↔◌, ◌≡◌, refl, true, false, none, some, [], ◌∷◌, arith}
use fleetsuite.Common.Text.{
  Text, codes, text_eq, texts_eq, trim, trim_start_by, trim_end_by, is_whitespace, split_by,
  split_once, parse_uint, read_digits,
}
use fleetsuite.Common.Net.{parse_ipv4, octets_of, parse_octet}
use fleetsuite.Scale.{
  PulseState, present, Answers, Config, conntrack_flushed, describe_asg_ips, is_master, unchanged,
  changed, load_nat, Watcher, rounds, round, start, select_ips, sort_by_ip, key_insert, to_set,
  set_insert, text_lt, pool_set,
}
use fleetsuite.Scale.Cidr.{parse_cidr, cidr_contains, bit_and, mask_of}
use fleetsuite.Scale.Cidr.Prefix.{cidr_contains-prefix}
use fleetsuite.Scale.Healthy.{IsPool}
use fleetsuite.Scale.Converges.{Remembers, rounds-Remembers, last_pool, round_publishes}
use fleetsuite.Scale.Flush.{IsGone, loaded, load_nat_flushes, unnoticed_promotion}

abbrev pulse : PulseState
pulse = record {
  instance_id = codes "i-1";
  eth0_secondary_ip = codes "172.16.16.9";
  vpn_asg_name = codes "vpn";
}

abbrev p1 : Text
p1 = codes "172.16.53.7"

abbrev p2 : Text
p2 = codes "172.16.53.20"

abbrev answers : Answers
answers = record {
  role_file = some (codes "master");
  credentials = true;
  pulse = present pulse;
  describe = λ asg. some (p2 ∷ p1 ∷ p2 ∷ []);
  probe = λ ip. text_eq ip p1;
  time = codes "now";
  write_file = true;
  reload = true;
  flush = true;
  set_pool = true;
  set_ring = true;
}

abbrev config : Config
config = record {
  proxy_asg = codes "proxy";
  manage_vpn_nat = true;
  backend_cidrs = (0xac103500, 0xffffff00) ∷ [];
}

-- The network of the example is the default `172.16.53.0/24`.
parsed : parse_cidr (codes "172.16.53.0/24") ≡ some (0xac103500, 0xffffff00)
unfolding parse_cidr split_once trim trim_start_by trim_end_by is_whitespace parse_ipv4 octets_of
    parse_octet split_by parse_uint read_digits mask_of bit_and
parsed = refl

start-Remembers : Remembers start
unfolding start
start-Remembers = record {
  pool = λ ips e. absurd (ground arith);
  nodes = λ ips e. absurd (ground arith);
}

rounds-Remembers_example : Remembers (rounds config (answers ∷ answers ∷ []) start)
rounds-Remembers_example = rounds-Remembers config (answers ∷ answers ∷ []) start start-Remembers

master : is_master answers ≡ true
unfolding is_master trim trim_start_by trim_end_by is_whitespace text_eq
master = refl

-- Twice listed, out of order.
described :
    describe_asg_ips answers config.proxy_asg (some config.backend_cidrs) ≡ some (p1 ∷ p2 ∷ [])
unfolding describe_asg_ips select_ips sort_by_ip key_insert to_set set_insert text_lt text_eq
    parse_ipv4 octets_of parse_octet split_by read_digits cidr_contains bit_and
described = refl

round_publishes_example :
    (pool : List Text) × (last_pool (round config answers start).log ≡ some pool)
    × IsPool answers (p1 ∷ p2 ∷ []) pool
round_publishes_example =
    round_publishes config answers start (p1 ∷ p2 ∷ []) start-Remembers refl master described refl

differs : unchanged (some (p1 ∷ p2 ∷ [])) (p1 ∷ []) ≡ false
unfolding texts_eq text_eq
differs = refl

load_nat_flushes_example :
    (((ip : Text) × IsGone (p1 ∷ p2 ∷ []) (p1 ∷ []) ip)
      → load_nat answers pulse (some (p1 ∷ p2 ∷ [])) (p1 ∷ []) []
        ≡ (changed (p1 ∷ []), conntrack_flushed ∷ loaded answers pulse (p1 ∷ []) []))
    × (¬ ((ip : Text) × IsGone (p1 ∷ p2 ∷ []) (p1 ∷ []) ip)
        → load_nat answers pulse (some (p1 ∷ p2 ∷ [])) (p1 ∷ []) []
          ≡ (changed (p1 ∷ []), loaded answers pulse (p1 ∷ []) []))
load_nat_flushes_example =
    load_nat_flushes answers pulse (p1 ∷ p2 ∷ []) (p1 ∷ []) [] differs refl refl refl

abbrev no_credentials : Answers
no_credentials = record answers { credentials = false }

abbrev demoted : Answers
demoted = record answers { credentials = false; role_file = some (codes "backup") }

abbrev serving : Watcher
serving = record {
  last_proxy = some (p1 ∷ []);
  last_vpn = none;
  was_master = true;
  log = pool_set (p1 ∷ []) ∷ [];
}

abbrev no_nat : Config
no_nat = record config { manage_vpn_nat = false }

unnoticed_promotion_example :
    (((rounds no_nat (demoted ∷ []) serving).was_master ≡ false)
      × ((rounds no_nat (demoted ∷ []) serving).last_proxy ≡ some (p1 ∷ [])))
    × ((rounds no_nat (demoted ∷ no_credentials ∷ answers ∷ []) serving).log ≡ serving.log)
unfolding is_master trim trim_start_by trim_end_by is_whitespace text_eq sort_by_ip key_insert
unnoticed_promotion_example =
    unnoticed_promotion no_nat demoted no_credentials answers serving (p1 ∷ p2 ∷ []) refl refl refl
      refl refl refl refl described refl

-- 172.16.53.0/24 and the address of a proxy.
cidr_contains-prefix_example :
    (cidr_contains ((bit_and 32 0xac103500 (mask_of 24), mask_of 24) ∷ []) 0xac103507 ≡ true)
    ↔ (0xac103507 / 2 ^ (32 - 24) ≡ 0xac103500 / 2 ^ (32 - 24))
cidr_contains-prefix_example =
    cidr_contains-prefix 0xac103500 0xac103507 24 (omega arith) (omega arith) (omega arith)
