-- ===== src/Fleet/Tests.antt =====
-- fleetpulse/src/main.rs at an API with one route, which a first election creates.
use fleetsuite.Common.{◌≡◌, refl, ap, Bool, true, false, Option, none, some, List, [], ◌∷◌}
use fleetsuite.Common.Text.{
  Text, codes, text_eq, starts_with, contains, split_by, parse_uint, read_digits,
}
use fleetsuite.Fleet.{
  State, Files, Answer, reply, refusal, Queries, Machine, World, load_state, run_notify_master,
  says_missing, parse_prefix,
}
use fleetsuite.Fleet.Takeover.{RouteApi, Taken, run_notify_master-Taken}

abbrev eni : List (Text × Text) → Text
eni (action ∷ version ∷ table ∷ cidr ∷ (key, value) ∷ rest) = value
eni params = []

abbrev target : Queries Text → Option Text
target [] = none
target ((q, reply xml) ∷ log) = some (eni q.params)
target ((q, refusal e) ∷ log) = target log

abbrev replaces : List (Text × Text) → Bool
replaces ((key, value) ∷ params) = text_eq value (codes "ReplaceRoute")
replaces [] = false

abbrev answer : Option Text → Bool → Answer
answer none true = refusal (codes "InvalidRoute.NotFound")
answer none false = reply (codes "<return>true</return>")
answer (some old) true = reply (codes "<return>true</return>")
answer (some old) false = refusal (codes "RouteAlreadyExists")

abbrev booted : State
booted = record {
  instance_id = codes "i-1";
  role = codes "master";
  region = codes "eu-west-2";
  eth0_eni_id = codes "eni-0";
  eth0_ip = codes "172.16.53.4";
  eth1_ip = codes "172.16.51.70";
  eth1_prefix = 28;
  peer_mgmt_ip = codes "172.16.51.86";
  rtb_id = codes "rtb-1";
}

abbrev gateway : Machine Text
gateway = record {
  aws_query = λ log q. answer (target log) (replaces q.params);
  extract_scalar = λ xml tag. some (codes "true");
  fetch_imds_credentials = some (codes "key");
  read_file = λ path. some (codes "{}");
  from_json = λ text. some booted;
  can_write = λ path. true;
}

abbrev files : Files
files = record { state_file = codes "/run/fleetpulse.state"; role_file = codes "/run/ipsec-role" }

abbrev fresh : World Text
fresh = record { queries = []; written = [] }

prefix_parsed : parse_prefix (codes "172.16.51.64/28") ≡ some 28
unfolding parse_prefix split_by parse_uint read_digits
prefix_parsed = refl

gateway-RouteApi : RouteApi gateway (codes "key") booted target
unfolding text_eq says_missing contains starts_with
gateway-RouteApi = record {
  replaced = λ log old h. (codes "<return>true</return>", ap (λ t. answer t true) h);
  led = λ log xml. refl;
  missing = λ log h. (codes "InvalidRoute.NotFound", (ap (λ t. answer t true) h, refl));
  unchanged = λ log q e. refl;
  created = λ log h. (codes "<return>true</return>", (ap (λ t. answer t false) h, refl));
  leads = λ log xml. refl;
}

run_notify_master-Taken_example :
    Taken gateway
      (codes "key")
      booted
      target
      gateway-RouteApi
      files
      fresh
      (run_notify_master gateway files fresh)
unfolding load_state
run_notify_master-Taken_example =
    run_notify_master-Taken gateway (codes "key") booted target gateway-RouteApi files fresh refl
      refl refl
