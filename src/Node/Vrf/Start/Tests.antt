-- ===== src/Node/Vrf/Start/Tests.antt =====
-- The theorems on the start at a host that still has rules of an earlier run.
use fleetsuite.Common.{
  ℕ, ◌-◌, ◌≡◌, refl, Bool, true, none, some, [], ◌∷◌, arith, length, ltb, if◌then◌else◌, is_some,
}
use fleetsuite.Common.Text.{
  Text, codes, text_eq, starts_with, trim, split_by, split_whitespace, is_whitespace, parse_uint,
  read_digits, trim_end_by, trim_start_by,
}
use fleetsuite.Node.Config.{BackendConfig, server_for}
use fleetsuite.Node.Host.{Command, Host, Log}
use fleetsuite.Node.Vrf.Start.{
  start_steps, ready, init, delete_rules, delete_taps, cleanup_stale_state, cleanup_tables,
  wait_for_vpp, add_pool_chains, finish_start, run_steps, step_call,
}
use fleetsuite.Node.Vrf.Calls.{
  ip, ip_warn, nft, nft_warn, nft_batch, vppctl, vppctl_warn, create_tap, conntrack_flush,
}
use fleetsuite.Node.Pools.{proxy_pool_bindings, split_pools}
use fleetsuite.Node.Vrf.Start.Ready.{Ready, init-Ready}
use fleetsuite.Node.Vrf.Start.Cleaned.{Rules, cleanup_stale_state_ends}

-- Deletions of rules succeed until twelve commands have run; all else succeeds.
abbrev accepts : Command → Log → Bool
accepts (Command.ip (w ∷ args)) log = if text_eq w (codes "rule") then ltb (length log) 12 else true
accepts (Command.ip []) log = true
accepts (Command.nft args) log = true
accepts (Command.vppctl args) log = true
accepts (Command.conntrack args) log = true
accepts (Command.modprobe args) log = true
accepts (Command.nft_batch rules) log = true

abbrev used : Host
used = λ log c. some (record { success = accepts c log; stdout = codes "tap0\n"; stderr = [] })

abbrev backend : BackendConfig
backend = record { access_server = none; sd_server = none; em_server = none }

abbrev left : Text → Log → ℕ
left prio log = 12 - length log

used-Rules : Rules used left
unfolding text_eq
used-Rules = record { fewer = λ prio log h. ground (arith, h) }

starts : (init used 3 20 backend []).0 ≡ ready (codes "tap0")
unfolding init wait_for_vpp cleanup_stale_state delete_rules text_eq cleanup_tables ip_warn ip
    nft_warn nft vppctl starts_with trim delete_taps split_by split_whitespace vppctl_warn
    create_tap is_whitespace parse_uint read_digits trim_end_by trim_start_by server_for
    proxy_pool_bindings split_pools conntrack_flush nft_batch fleetsuite.Node.Vrf.Calls.◌>>=◌
    add_pool_chains finish_start run_steps start_steps step_call
starts = refl

init-Ready_example : Ready (codes "tap0") (init used 3 20 backend []).1
init-Ready_example = init-Ready used 3 20 backend [] (codes "tap0") starts

cleanup_stale_state_ends_example : is_some (cleanup_stale_state used 13 []) ≡ true
cleanup_stale_state_ends_example =
    cleanup_stale_state_ends used left used-Rules 13 [] (λ prio l. omega arith)
