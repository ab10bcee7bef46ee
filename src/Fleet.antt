-- ===== src/Fleet.antt =====
-- fleetpulse/src/main.rs: the route of the backend servers that the elected gateway takes over
-- (`notify-master`), the role file, and the check that a forwarding interface must not have. Calls of
-- AWS, JSON and the metadata service are parameters; a write that fails leaves its file.
pub mod Takeover
mod Tests
use fleetsuite.Common.{
  ℕ, Bool, true, false, Option, none, some, List, [], ◌∷◌, ◌++◌, ◌||◌, ◌==◌, if◌then◌else◌,
  and_then,
}
use fleetsuite.Common.Text.{Text, codes, text_eq, contains, split_by, parse_uint}

pub data Role : Type 0 where
  master backup : Role

abbrev pub as_str : Role → Text
as_str master = codes "master"
as_str backup = codes "backup"

unfoldable pub parse_role : Text → Option Role
unfolding text_eq
parse_role role =
    if text_eq role (codes "master")
    then some master
    else if text_eq role (codes "backup")
    then some backup
    else none

pub record State : Type 0 where
  pub instance_id : Text
  pub role : Text
  pub region : Text
  pub eth0_eni_id : Text
  pub eth0_ip : Text
  pub eth1_ip : Text
  pub eth1_prefix : ℕ
  pub peer_mgmt_ip : Text
  pub rtb_id : Text

pub record Files : Type 0 where
  pub state_file : Text
  pub role_file : Text

abbrev second : List Text → Option Text
second (a ∷ b ∷ rest) = some b
second (a ∷ []) = none
second [] = none

unfoldable pub parse_prefix : Text → Option ℕ
unfolding split_by parse_uint
parse_prefix cidr = and_then (second (split_by (λ c. c == 47) cidr)) (parse_uint 255)

pub data Answer : Type 0 where
  reply refusal : Text → Answer

-- `aws_query`: the host, the service, the region, the credentials and the parameters.
pub record Query (Creds : Type 0) : Type 0 where
  pub host : Text
  pub service : Text
  pub region : Text
  pub creds : Creds
  pub params : List (Text × Text)

-- The queries answered so far, the last one first.
abbrev pub Queries : Type 0 → Type 0
Queries Creds = List (Query Creds × Answer)

-- What the program uses of its machine and of AWS.
pub record Machine (Creds : Type 0) : Type 0 where
  pub aws_query : Queries Creds → Query Creds → Answer
  pub extract_scalar : Text → Text → Option Text
  pub fetch_imds_credentials : Option Creds
  pub read_file : Text → Option Text
  pub from_json : Text → Option State
  pub can_write : Text → Bool

-- The queries and the files written, the last one first.
pub record World (Creds : Type 0) : Type 0 where
  pub queries : Queries Creds
  pub written : List (Text × Text)

abbrev pub ec2 : {Creds : Type 0} → Text → Creds → List (Text × Text) → Query Creds
ec2 region creds params = record {
  host = codes "ec2." ++ (region ++ codes ".amazonaws.com");
  service = codes "ec2";
  region = region;
  creds = creds;
  params = params;
}

abbrev pub route_params : Text → Text → Text → Text → List (Text × Text)
route_params action rtb_id cidr eni_id =
    (codes "Action", action)
    ∷ (codes "Version", codes "2016-11-15")
    ∷ (codes "RouteTableId", rtb_id)
    ∷ (codes "DestinationCidrBlock", cidr)
    ∷ (codes "NetworkInterfaceId", eni_id)
    ∷ []

unfoldable pub says_missing : Text → Bool
says_missing e = contains (codes "InvalidRoute.NotFound") e || contains (codes "Use CreateRoute") e

abbrev pub says_true : Option Text → Bool
says_true none = false
says_true (some v) = text_eq v (codes "true")

module _ {Creds : Type 0} (m : Machine Creds) where
  abbrev pub asked : Query Creds → World Creds → World Creds
  asked q w = record { queries = (q, m.aws_query w.queries q) ∷ w.queries; written = w.written }

  unfoldable pub write_file : Text → Text → World Creds → Bool × World Creds
  write_file path content w =
      if m.can_write path
      then (true, record { queries = w.queries; written = (path, content) ∷ w.written })
      else (false, w)

  -- Whether the response has `true` as its `return`.
  abbrev pub returned_true : Answer → Bool
  returned_true (refusal e) = false
  returned_true (reply xml) = says_true (m.extract_scalar xml (codes "return"))

  unfoldable pub disable_src_dest_check : Text → Creds → Text → World Creds → Bool × World Creds
  disable_src_dest_check region creds eni_id w =
      let q : Query Creds = ec2 region creds (
        (codes "Action", codes "ModifyNetworkInterfaceAttribute")
        ∷ (codes "Version", codes "2016-11-15")
        ∷ (codes "NetworkInterfaceId", eni_id)
        ∷ (codes "SourceDestCheck.Value", codes "false")
        ∷ []) in
      (returned_true (m.aws_query w.queries q), asked q w)

  abbrev pub create_query : Text → Creds → Text → Text → Text → Query Creds
  create_query region creds rtb_id cidr eni_id =
      ec2 region creds (route_params (codes "CreateRoute") rtb_id cidr eni_id)

  abbrev pub replace_query : Text → Creds → Text → Text → Text → Query Creds
  replace_query region creds rtb_id cidr eni_id =
      ec2 region creds (route_params (codes "ReplaceRoute") rtb_id cidr eni_id)

  -- What follows the answer to ReplaceRoute.
  abbrev pub or_create : Query Creds → Answer → World Creds → Bool × World Creds
  or_create create (reply xml) w = (true, w)
  or_create create (refusal e) w =
      if says_missing e
      then (returned_true (m.aws_query w.queries create), asked create w)
      else (false, w)

  unfoldable pub upsert_route : Text → Creds → Text → Text → Text → World Creds → Bool × World Creds
  upsert_route region creds rtb_id cidr eni_id w =
      let replace : Query Creds = replace_query region creds rtb_id cidr eni_id in
      or_create (create_query region creds rtb_id cidr eni_id) (m.aws_query w.queries replace)
        (asked replace w)

  unfoldable pub load_state : Text → Option State
  load_state path = and_then (m.read_file path) m.from_json

  abbrev pub role_written : Files → Role → Bool × World Creds → Bool × World Creds
  role_written cli role (false, w) = (false, w)
  role_written cli role (true, w) = write_file cli.role_file (as_str role ++ codes "\n") w

  abbrev pub with_creds : Files → State → Option Creds → World Creds → Bool × World Creds
  with_creds cli state none w = (false, w)
  with_creds cli state (some creds) w =
      role_written cli master
        (upsert_route state.region creds state.rtb_id (codes "0.0.0.0/0") state.eth0_eni_id w)

  abbrev pub with_state : Files → Option State → World Creds → Bool × World Creds
  with_state cli none w = (false, w)
  with_state cli (some state) w = with_creds cli state m.fetch_imds_credentials w

  unfoldable pub run_notify_master : Files → World Creds → Bool × World Creds
  run_notify_master cli w = with_state cli (load_state cli.state_file) w

  unfoldable pub run_notify_backup : Files → World Creds → Bool × World Creds
  run_notify_backup cli w = role_written cli backup (true, w)
