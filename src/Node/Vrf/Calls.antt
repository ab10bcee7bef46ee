-- ===== src/Node/Vrf/Calls.antt =====
-- ipsecnode/src/vpp.rs: the fallible commands and the helpers made of them.
use fleetsuite.Common.{
  ℕ, Bool, ◌&&◌, ◌||◌, Option, none, some, List, [], ◌∷◌, ◌++◌, ◌==◌, if◌then◌else◌, is_some,
  and_then, is_empty,
}
use fleetsuite.Common.Text.{
  Text, codes, text_eq, trim, starts_with, split_by, split_whitespace, parse_uint,
}
use fleetsuite.Node.Host.{Command, Output, Log, Host, host_prefix}

-- A call that may fail, as one that returns `Result`.
abbrev pub Call : Type 0 → Type 0
Call A = Log → Option A × Log

unfoldable pub return : {A : Type 0} → A → Call A
return a log = (some a, log)

abbrev pub then_call : {A B : Type 0} → (A → Call B) → Option A × Log → Option B × Log
then_call f (none, log) = (none, log)
then_call f (some a, log) = f a log

infixl 5 ◌>>=◌
unfoldable pub ◌>>=◌ : {A B : Type 0} → Call A → (A → Call B) → Call B
◌>>=◌ m f log = then_call f (m log)

-- The call's error is only logged.
abbrev pub tolerate : {A : Type 0} → Call A → Call Bool
tolerate m log = (some (is_some (m log).0), (m log).1)

module _ (host : Host) where
  abbrev pub done_if : Option Output → Option Text
  done_if none = none
  done_if (some out) = if out.success then some (trim out.stdout) else none

  abbrev pub checked_stdout : Option Text → Option Text
  checked_stdout none = none
  checked_stdout (some stdout) =
      if starts_with (codes "unknown input") stdout || starts_with (codes "Failed:") stdout
      then none
      else some stdout

  unfoldable pub vppctl : List Text → Call Text
  vppctl args log = (
    checked_stdout (done_if (host log (Command.vppctl args))),
    (Command.vppctl args, host log (Command.vppctl args)) ∷ log,
  )

  unfoldable pub ip : List Text → Call Text
  ip args log =
      (done_if (host log (Command.ip args)), (Command.ip args, host log (Command.ip args)) ∷ log)

  unfoldable pub nft : List Text → Call Text
  nft args log =
      (done_if (host log (Command.nft args)), (Command.nft args, host log (Command.nft args)) ∷ log)

  unfoldable pub vppctl_warn : List Text → Log → Log
  vppctl_warn args log = (vppctl args log).1

  unfoldable pub ip_warn : List Text → Log → Log
  ip_warn args log = (ip args log).1

  unfoldable pub nft_warn : List Text → Log → Log
  nft_warn args log = (nft args log).1

  abbrev tap_name : Text → Call Text
  tap_name out log = if is_empty (trim out) then (none, log) else (some (trim out), log)

  unfoldable pub create_tap : Text → Call Text
  create_tap kernel_name =
      vppctl (codes "create" ∷ codes "tap" ∷ codes "host-if-name" ∷ kernel_name ∷ []) >>= tap_name

  -- `read_to_string`, which is not a command.
  unfoldable pub get_ifindex : (Log → Text → Option Text) → Text → Call ℕ
  get_ifindex read_file iface log = (
    and_then (read_file log (codes "/sys/class/net/" ++ (iface ++ codes "/ifindex")))
        (λ s. parse_uint 4294967295 (trim s)),
    log,
  )

  unfoldable pub install_device_nat : Text → Text → Text → Text → Text → Call Text
  install_device_nat vrf_str internal_ip global_ip kern_ip vpp_tap = do
    mapped ← vppctl (
        codes "nat44"
        ∷ codes "add"
        ∷ codes "static"
        ∷ codes "mapping"
        ∷ codes "local"
        ∷ internal_ip
        ∷ codes "external"
        ∷ global_ip
        ∷ codes "vrf"
        ∷ vrf_str
        ∷ [])
    deleted ← tolerate (
        vppctl (
          codes "ip"
          ∷ codes "route"
          ∷ codes "del"
          ∷ host_prefix internal_ip
          ∷ codes "table"
          ∷ vrf_str
          ∷ []))
    routed ← vppctl (
        codes "ip"
        ∷ codes "route"
        ∷ codes "add"
        ∷ host_prefix internal_ip
        ∷ codes "table"
        ∷ vrf_str
        ∷ codes "via"
        ∷ kern_ip
        ∷ vpp_tap
        ∷ [])
    ip (
        codes "route"
        ∷ codes "replace"
        ∷ host_prefix global_ip
        ∷ codes "dev"
        ∷ codes "vpp-outer"
        ∷ [])

  unfoldable pub remove_device_nat : Text → Text → Text → Log → Log
  remove_device_nat vrf_str internal_ip global_ip log =
      vppctl_warn
        (codes "nat44"
          ∷ codes "del"
          ∷ codes "static"
          ∷ codes "mapping"
          ∷ codes "local"
          ∷ internal_ip
          ∷ codes "external"
          ∷ global_ip
          ∷ codes "vrf"
          ∷ vrf_str
          ∷ [])
        (vppctl_warn
          (codes "ip"
            ∷ codes "route"
            ∷ codes "del"
            ∷ host_prefix internal_ip
            ∷ codes "table"
            ∷ vrf_str
            ∷ [])
          (ip_warn
            (codes "route" ∷ codes "replace" ∷ codes "blackhole" ∷ host_prefix global_ip ∷ []) log))

  -- The index in the second column of the tap's own line.
  abbrev sw_if_index : Text → List Text → Option Text
  sw_if_index name (n ∷ i ∷ rest) =
      if text_eq n name && is_some (parse_uint 4294967295 i) then some i else none
  sw_if_index name (n ∷ []) = none
  sw_if_index name [] = none

  unfoldable pub find_index : Text → List Text → Option Text
  find_index name [] = none
  find_index name (line ∷ lines) =
      let rest = find_index name lines in
      let here = sw_if_index name (split_whitespace line) in if is_some here then here else rest

  abbrev delete_index : Option Text → Log → Log
  delete_index none log = log
  delete_index (some i) log =
      vppctl_warn (codes "delete" ∷ codes "tap" ∷ codes "sw_if_index" ∷ i ∷ []) log

  unfoldable pub delete_vpp_tap : Text → Log → Log
  delete_vpp_tap name log =
      let shown = vppctl (codes "show" ∷ codes "interface" ∷ name ∷ []) log in
      delete_index (and_then shown.0 (λ out. find_index name (split_by (λ c. c == 10) out))) shown.1

  -- `out.status.success()` of a command whose output is not used.
  unfoldable pub nft_batch : Text → Call Text
  nft_batch rules log = (
    done_if (host log (Command.nft_batch rules)),
    (Command.nft_batch rules, host log (Command.nft_batch rules)) ∷ log,
  )

  unfoldable pub conntrack_flush : Call Text
  conntrack_flush log = (
    done_if (host log (Command.conntrack (codes "-F" ∷ []))),
    (Command.conntrack (codes "-F" ∷ []), host log (Command.conntrack (codes "-F" ∷ []))) ∷ log,
  )
