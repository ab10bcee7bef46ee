-- ===== src/Node/Nat/Tests.antt =====
-- The theorems on routes at one site with two devices, whose commands all succeed, and the run that
-- shows what a tunnel without a record costs.
use fleetsuite.Common.{◌≡◌, refl, true, false, none, some, List, [], ◌∷◌, arith}
use fleetsuite.Common.Text.{Text, codes}
use fleetsuite.Node.Host.{Reply, Host}
use fleetsuite.Node.Nat.{
  PeerRouteState, get_nat_record, Event, up, down, Records, NatRecord, handle_all,
}
use fleetsuite.Node.Nat.Uncounted.{uncounted_up}
use fleetsuite.Node.Nat.Installed.{installed}
use fleetsuite.Node.Nat.Leak.{NoLeak, handle_all-NoLeak}

abbrev works : Host
works log c = some (record { success = true; stdout = []; stderr = [] })

abbrev site : Text
site = codes "203.0.113.1"

abbrev site_record : NatRecord
site_record = record {
  nat_mode = none;
  device_nat =
      record { internal_ip = codes "10.67.1.5"; global_ip = codes "198.51.100.5" }
      ∷ record { internal_ip = codes "10.67.1.6"; global_ip = codes "198.51.100.6" }
      ∷ [];
  backend_nat = none;
}

abbrev records : Records
records = record {
  valkey_get = λ key. Reply.reply (some (codes "{}"));
  decode = λ json. some site_record;
}

abbrev site_state : PeerRouteState
site_state = record { global_ips = codes "198.51.100.5" ∷ []; child_sa_count = 1 }

abbrev rekey : List Event
rekey = up records site ∷ down site ∷ down (codes "203.0.113.9") ∷ []

handle_all-NoLeak_example :
    NoLeak works true (handle_all works true (up records site ∷ down site ∷ []) ([], []))
unfolding installed NoLeak
handle_all-NoLeak_example =
    handle_all-NoLeak works true (up records site ∷ down site ∷ []) ([], [])
      (λ g h. absurd (ground arith))

abbrev no_records : Records
no_records = record { valkey_get = λ key. Reply.failed; decode = λ json. none }

uncounted_up_example :
    ((handle_all works true (up no_records site ∷ up records site ∷ down site ∷ []) ([], [])).0
      ≡ [])
    × ((g : Text)
        → installed g
            (handle_all works true
              (up no_records site ∷ up records site ∷ down site ∷ [])
              ([], [])).1
          ≡ false)
unfolding get_nat_record installed
uncounted_up_example = uncounted_up works true site no_records records [] (λ g. refl) refl
