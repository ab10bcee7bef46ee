-- ===== src/Node/Vrf/Start/Ready.antt =====
-- ipsecnode/src/vpp.rs: what has been done when `init` returns a state.
use fleetsuite.Common.{
  ℕ, ◌≡◌, refl, sym, ◌∙◌, subst, ◌||◌, if◌then◌else◌, ◌⊎◌, inl, inr, Bool, true, false, Option,
  none, some, List, [], ◌∷◌, arith, Bool-cases, is_some, all, All, All-mono,
}
use fleetsuite.Common.Text.{Text, codes, starts_with, contains, trim}
use fleetsuite.Node.Config.{BackendConfig}
use fleetsuite.Node.Host.{Command, Output, Host, Log, succeeded}
use fleetsuite.Node.Pools.{PoolBinding, proxy_pool_bindings}
use fleetsuite.Node.Vrf.Calls.{
  vppctl, ip, nft_batch, conntrack_flush, done_if, checked_stdout, create_tap,
}
use fleetsuite.Node.Vrf.Start.{
  mangle_rules, bnat_rules, Step, vpp_step, ip_step, batch_step, step_command, start_steps, ready,
  step_call, run_steps, add_pool_chains, finish_start, stepped, tapped, cleaned, waited, init,
  wait_for_vpp, cleanup_stale_state,
}

-- What vppctl prints is no report of an error.
abbrev pub Silent : Option Output → Type 0
Silent none = ⊥
Silent (some out) =
    (starts_with (codes "unknown input") (trim out.stdout) ≡ false)
    × (starts_with (codes "Failed:") (trim out.stdout) ≡ false)

-- The command did what it is for: it exited with success, and vppctl printed no error besides.
abbrev pub Taken : Command → Option Output → Type 0
Taken (Command.vppctl args) out = (succeeded out ≡ true) × Silent out
Taken (Command.ip args) out = succeeded out ≡ true
Taken (Command.nft args) out = succeeded out ≡ true
Taken (Command.conntrack args) out = succeeded out ≡ true
Taken (Command.modprobe args) out = succeeded out ≡ true
Taken (Command.nft_batch rules) out = succeeded out ≡ true

-- The command ran and did what it is for.
unfoldable pub Ran : Command → Log → Type 0
Ran c [] = ⊥
Ran c ((d, out) ∷ log) = ((d ≡ c) × Taken d out) ⊎ Ran c log

-- A batch ran in which these texts stand.
abbrev pub Batched : Text → Text → Text → Log → Type 0
Batched a b c log =
    (rules : Text) × Ran (Command.nft_batch rules) log
    × (contains a rules ≡ true)
    × (contains b rules ≡ true)
    × (contains c rules ≡ true)

-- The data plane: the outer tap with its addresses and state on both sides, VPP's default route and
-- translation, the marks of the packets from the taps, and the tables of the sites' translations.
pub record Ready (tap : Text) (log : Log) : Type 0 where
  pub vpp_address :
      Ran
        (Command.vppctl (
          codes "set"
          ∷ codes "interface"
          ∷ codes "ip"
          ∷ codes "address"
          ∷ tap
          ∷ codes "10.255.0.6/30"
          ∷ []))
        log
  pub vpp_up :
      Ran
        (Command.vppctl (codes "set" ∷ codes "interface" ∷ codes "state" ∷ tap ∷ codes "up" ∷ []))
        log
  pub kernel_address :
      Ran
        (Command.ip (
          codes "addr"
          ∷ codes "add"
          ∷ codes "10.255.0.5/30"
          ∷ codes "dev"
          ∷ codes "vpp-outer"
          ∷ []))
        log
  pub kernel_up :
      Ran (Command.ip (codes "link" ∷ codes "set" ∷ codes "vpp-outer" ∷ codes "up" ∷ [])) log
  pub default_route :
      Ran
        (Command.vppctl (
          codes "ip"
          ∷ codes "route"
          ∷ codes "add"
          ∷ codes "0.0.0.0/0"
          ∷ codes "via"
          ∷ codes "10.255.0.5"
          ∷ []))
        log
  pub nat_enabled :
      Ran
        (Command.vppctl (
          codes "nat44" ∷ codes "plugin" ∷ codes "enable" ∷ codes "sessions" ∷ codes "500000" ∷ []))
        log
  pub nat_outside :
      Ran
        (Command.vppctl (codes "set" ∷ codes "interface" ∷ codes "nat44" ∷ codes "out" ∷ tap ∷ []))
        log
  pub marks :
      Batched
        (codes "add map ip ipsecnode vpp_mark {")
        (codes "mangle_pre iif @vpp_taps meta mark set iif map @vpp_mark\n")
        (codes "tcp option maxseg size > 1380 tcp option maxseg size set 1380\n")
        log
  pub translations :
      Batched
        (codes "add table ip ipsecnode_bnat\n")
        (codes "add chain ip ipsecnode_bnat prerouting { type nat hook prerouting ")
        (codes "add chain ip ipsecnode_bnat postrouting { type nat hook postrouting ")
        log

-- The steps, of which each ran, make the data plane.
made_Ready :
    (tap : Text) (log : Log) → All (λ s. Ran (step_command s) log) (start_steps tap) → Ready tap log
unfolding start_steps contains starts_with
made_Ready tap log (a, (b, (c, (d, (e, (f, (g, (h, (i, u))))))))) = record {
  vpp_address = a;
  vpp_up = b;
  kernel_address = c;
  kernel_up = d;
  default_route = e;
  nat_enabled = f;
  nat_outside = g;
  marks = (mangle_rules, h, refl, refl, refl);
  translations = (bnat_rules, i, refl, refl, refl);
}

module _ (host : Host) where
  done_succeeded : (out : Option Output) → is_some (done_if host out) ≡ true → succeeded out ≡ true
  done_succeeded none h = absurd (ground (arith, h))
  done_succeeded (some out) h = elim (Bool-cases out.success) [
    | inl e ↦ e
    | inr e ↦ absurd (clash e)
  ]
    where
      clash : out.success ≡ false → ⊥
      clash e = ground (arith, h, e)

  reported :
      (a b : Bool) (t : Text)
      → is_some (if a || b then none else some t) ≡ true
      → (a ≡ false) × (b ≡ false)
  reported true b t h = absurd (ground (arith, h))
  reported false true t h = absurd (ground (arith, h))
  reported false false t h = (refl, refl)

  vppctl-Taken :
      (out : Option Output)
      → is_some (checked_stdout host (done_if host out)) ≡ true
      → (succeeded out ≡ true) × Silent out
  vppctl-Taken none h = absurd (ground (arith, h))
  vppctl-Taken (some out) h = by_success out.success h
    where
      by_success :
          (ok : Bool)
          → is_some (checked_stdout host (if ok then some (trim out.stdout) else none)) ≡ true
          → (ok ≡ true) × Silent (some out)
      by_success false q = absurd (ground (arith, q))
      by_success true q = (
        refl,
        reported (starts_with (codes "unknown input") (trim out.stdout))
            (starts_with (codes "Failed:") (trim out.stdout)) (trim out.stdout) q,
      )

  step_call-Ran :
      (s : Step) (log : Log)
      → is_some (step_call host s log).0 ≡ true
      → Ran (step_command s) (step_call host s log).1
  unfolding step_call vppctl ip nft_batch Ran
  step_call-Ran (vpp_step args) log h = inl (refl, vppctl-Taken (host log (Command.vppctl args)) h)
  step_call-Ran (ip_step args) log h = inl (refl, done_succeeded (host log (Command.ip args)) h)
  step_call-Ran (batch_step rules) log h =
      inl (refl, done_succeeded (host log (Command.nft_batch rules)) h)

  step_keeps : (c : Command) (s : Step) (log : Log) → Ran c log → Ran c (step_call host s log).1
  unfolding step_call vppctl ip nft_batch Ran
  step_keeps c (vpp_step args) log r = inr r
  step_keeps c (ip_step args) log r = inr r
  step_keeps c (batch_step rules) log r = inr r

  run_steps-keeps :
      (c : Command) (steps : List Step) (log : Log) → Ran c log → Ran c (run_steps host steps log).1
  unfolding run_steps
  run_steps-keeps c [] log r = r
  run_steps-keeps c (s ∷ steps) log r = elim (Bool-cases (is_some (step_call host s log).0)) [
    | inl e ↦ rw e (run_steps-keeps c steps (step_call host s log).1 (step_keeps c s log r))
    | inr e ↦ rw e (step_keeps c s log r)
  ]

  on_success :
      (s : Step) (steps : List Step) (log : Log)
      → is_some (step_call host s log).0 ≡ true
      → run_steps host (s ∷ steps) log ≡ run_steps host steps (step_call host s log).1
  unfolding run_steps
  on_success s steps log e = rw e refl

  on_failure :
      (s : Step) (steps : List Step) (log : Log)
      → is_some (step_call host s log).0 ≡ false
      → (run_steps host (s ∷ steps) log).0 ≡ false
  unfolding run_steps
  on_failure s steps log e = rw e refl

  run_steps-Ran :
      (steps : List Step) (log : Log)
      → (run_steps host steps log).0 ≡ true
      → All (λ s. Ran (step_command s) (run_steps host steps log).1) steps
  run_steps-Ran [] log h = tt
  run_steps-Ran (s ∷ steps) log h = elim (Bool-cases (is_some (step_call host s log).0)) [
    | inl e ↦
        let same = on_success s steps log e in
        subst (λ r. All (λ t. Ran (step_command t) r.1) (s ∷ steps)) (sym same)
          (
            run_steps-keeps (step_command s) steps (step_call host s log).1 (step_call-Ran s log e),
            run_steps-Ran steps (step_call host s log).1 (subst (λ r. r.0 ≡ true) same h),
          )
    | inr e ↦ absurd (ground (arith, sym h ∙ on_failure s steps log e))
  ]

  pools-keep :
      (c : Command) (pools : List PoolBinding) (log : Log)
      → Ran c log
      → Ran c (add_pool_chains host pools log)
  unfolding add_pool_chains nft_batch Ran
  pools-keep c [] log r = r
  pools-keep c (p ∷ pools) log r = pools-keep c pools _ (inr r)

  finish-keeps :
      (c : Command) (backend : BackendConfig) (log : Log)
      → Ran c log
      → Ran c (finish_start host backend log)
  unfolding finish_start nft_batch conntrack_flush Ran
  finish-keeps c backend log r =
      inr (pools-keep c (proxy_pool_bindings backend) _ (inr (inr (inr r))))

  stepped-Ran :
      (backend : BackendConfig) (tap outer : Text) (steps : List Step) (r : Bool × Log)
      → (r.0 ≡ true → All (λ s. Ran (step_command s) r.1) steps)
      → (stepped host backend outer r).0 ≡ ready tap
      → All (λ s. Ran (step_command s) (stepped host backend outer r).1) steps × (outer ≡ tap)
  stepped-Ran backend tap outer steps (false, log) a h = absurd (ground (arith, h))
  stepped-Ran backend tap outer steps (true, log) a h = (
    All-mono (λ s. Ran (step_command s) log)
        (λ s. Ran (step_command s) (finish_start host backend log)) steps
        (λ s r. finish-keeps (step_command s) backend log r) (a refl),
    cc (h),
  )

  tapped-Ran :
      (backend : BackendConfig) (tap : Text) (r : Option Text × Log)
      → (tapped host backend r).0 ≡ ready tap
      → All (λ s. Ran (step_command s) (tapped host backend r).1) (start_steps tap)
  tapped-Ran backend tap (none, log) h = absurd (ground (arith, h))
  tapped-Ran backend tap (some outer, log) h =
      let (all, same) =
        stepped-Ran backend tap outer (start_steps outer) (run_steps host (start_steps outer) log)
          (run_steps-Ran (start_steps outer) log) h in
      subst
        (λ t.
          All
            (λ s.
              Ran (step_command s)
                (stepped host backend outer (run_steps host (start_steps outer) log)).1)
            (start_steps t))
        same all

  cleaned-Ran :
      (backend : BackendConfig) (tap : Text) (o : Option Log) (log : Log)
      → (cleaned host backend o log).0 ≡ ready tap
      → All (λ s. Ran (step_command s) (cleaned host backend o log).1) (start_steps tap)
  cleaned-Ran backend tap none log h = absurd (ground (arith, h))
  cleaned-Ran backend tap (some clean) log h =
      tapped-Ran backend tap (create_tap host (codes "vpp-outer") clean) h

  waited-Ran :
      (fuel : ℕ) (backend : BackendConfig) (tap : Text) (r : Bool × Log)
      → (waited host fuel backend r).0 ≡ ready tap
      → All (λ s. Ran (step_command s) (waited host fuel backend r).1) (start_steps tap)
  waited-Ran fuel backend tap (false, log) h = absurd (ground (arith, h))
  waited-Ran fuel backend tap (true, log) h =
      cleaned-Ran backend tap (cleanup_stale_state host fuel log) log h

  init-Ran :
      (tries fuel : ℕ) (backend : BackendConfig) (log : Log) (tap : Text)
      → (init host tries fuel backend log).0 ≡ ready tap
      → All (λ s. Ran (step_command s) (init host tries fuel backend log).1) (start_steps tap)
  unfolding init
  init-Ran tries fuel backend log tap h =
      waited-Ran fuel backend tap (wait_for_vpp host tries log) h

  -- Where the start returns a state with an outer tap, the commands that make the data plane have run
  -- for that tap, each exited with success and vppctl reported no error: the addresses, the route, the
  -- translation in VPP, and the batches that make the marks and the tables of nftables.
  pub init-Ready :
      (tries fuel : ℕ) (backend : BackendConfig) (log : Log) (tap : Text)
      → (init host tries fuel backend log).0 ≡ ready tap
      → Ready tap (init host tries fuel backend log).1
  init-Ready tries fuel backend log tap h =
      made_Ready tap (init host tries fuel backend log).1 (init-Ran tries fuel backend log tap h)
