-- ===== src/Node/Vrf/Bnat/Tests.antt =====
-- The theorems on the backend's rules at a host that answers every command alike.
use fleetsuite.Node.Vrf.Rules.{parse_nft_handle}
use fleetsuite.Common.{is_empty, false, ◌≡◌, refl, true, none, some, [], ◌∷◌}
use fleetsuite.Common.Text.{
  Text, codes, trim, trim_start_by, trim_end_by, is_whitespace, split_by, split_whitespace,
  tail_after_last, strip_prefix, parse_uint, read_digits,
}
use fleetsuite.Node.Config.{BackendConfig, SplitRule}
use fleetsuite.Node.Host.{Host, Log}
use fleetsuite.Node.Vrf.{SiteBnatState}
use fleetsuite.Node.Vrf.Bnat.Torn.{Torn}
use fleetsuite.Node.Nat.{BackendNatRecord}
use fleetsuite.Node.Vrf.Sites.{Env, teardown_site_bnat}
use fleetsuite.Node.Vrf.Bnat.{setup_site_bnat}
use fleetsuite.Node.Vrf.Bnat.Lines.{Lines}
use fleetsuite.Node.Vrf.Bnat.Live.{undeleted}
use fleetsuite.Node.Vrf.Bnat.Mirror.{Mirrors, Deleted, setup_site_bnat-Mirrors}
use fleetsuite.Node.Vrf.Bnat.Cleared.{teardown_site_bnat-Deleted}

abbrev agreeing : Host
agreeing =
    λ log c. some (record { success = true; stdout = codes "add rule # handle 7"; stderr = [] })

handle_parsed : parse_nft_handle (codes "add rule ip t c accept # handle 42\n") ≡ some 42
unfolding parse_nft_handle trim trim_start_by trim_end_by is_whitespace split_by split_whitespace
    tail_after_last strip_prefix parse_uint read_digits
handle_parsed = refl

abbrev ftp : SplitRule
ftp = record {
  ports = 21 ∷ 22 ∷ [];
  src_ports = [];
  port_from = none;
  port_to = none;
  dnat_to = some (codes "172.16.48.10");
  pool = none;
}

abbrev backend : BackendConfig
backend = record {
  access_server = some (record { real_ip = codes "172.16.53.6"; split = ftp ∷ [] });
  sd_server = some (record { real_ip = codes "172.16.53.8"; split = [] });
  em_server = none;
}

abbrev roles : BackendNatRecord
roles = record {
  access_server = some (codes "10.1.1.1");
  sd_server = some (codes "10.1.1.2");
  em_server = none;
}

nothing_added : Deleted 1 []
unfolding undeleted
nothing_added = record { no_map = refl; no_snat_map = refl; no_chain = refl }

setup_site_bnat-Mirrors_example :
    Mirrors 1
      (setup_site_bnat agreeing 1 (some roles) backend []).0
      (setup_site_bnat agreeing 1 (some roles) backend []).1
setup_site_bnat-Mirrors_example =
    setup_site_bnat-Mirrors agreeing 1 (some roles) backend [] nothing_added

abbrev env : Env
env = record {
  host = agreeing;
  read_file = λ log path. none;
  outer_tap = codes "tap0";
  setup_bnat = λ peer if_id rec log. setup_site_bnat agreeing if_id rec backend log;
}

abbrev set_up : SiteBnatState
set_up = (setup_site_bnat agreeing 1 (some roles) backend []).0

abbrev before : Log
before = (setup_site_bnat agreeing 1 (some roles) backend []).1

teardown_site_bnat-Deleted_example :
    Deleted 1 (teardown_site_bnat env set_up before)
    × (is_empty set_up.map_name ≡ false → Torn set_up (teardown_site_bnat env set_up before))
teardown_site_bnat-Deleted_example =
    teardown_site_bnat-Deleted env 1 set_up before setup_site_bnat-Mirrors_example
