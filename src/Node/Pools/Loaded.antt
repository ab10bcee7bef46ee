-- ===== src/Node/Pools/Loaded.antt =====
-- ipsecnode/src/vpp.rs: what the task remembers of a pool is what nftables has.
use fleetsuite.Node.Vrf.Rules.{pool_chain}
use fleetsuite.Common.{
  ℕ, ◌≡◌, refl, sym, ap, ap₂, subst, ◌∙◌, inl, inr, Bool, true, false, ◌&&◌, Option, none, some,
  List, [], ◌∷◌, ◌++◌, arith, ◌==◌, if◌then◌else◌, Bool-cases, find, is_empty, All,
}
use mathlib.Core.List.{append_assoc}
use fleetsuite.Common.Text.{trim, text_eq_sound, starts_with-append, Text, text_eq, starts_with}
use fleetsuite.Common.Split.{IsFree}
use fleetsuite.Common.Assoc.{get-insert_other, get-insert_same, insert, get}
use fleetsuite.Node.Vrf.Calls.{done_if, conntrack_flush, nft_batch}
use fleetsuite.Node.Host.{Reply}
use fleetsuite.Node.Pools.{
  flushed, apply_proxy_pool, snapshot, reconcile_to, reconcile_pool, reconcile_all, reconcile_found,
  pool_turn, pool_turns, proxy_pool_task, is_same, had_removal,
}
use fleetsuite.Node.Host.{Output, Host, Command, Log, succeeded}
use fleetsuite.Node.Pools.{
  applied, PoolBinding, conntrack_flush, dnat_rule, PoolState, flush_line, pool_batch,
}

-- The last batch for a pool's chain that `nft` took; one that fails changes nothing.
abbrev pub is_batch_for : Text → Command → Bool
is_batch_for pool (Command.nft_batch rules) = starts_with (flush_line pool) rules
is_batch_for pool (Command.nft args) = false
is_batch_for pool (Command.ip args) = false
is_batch_for pool (Command.vppctl args) = false
is_batch_for pool (Command.conntrack args) = false
is_batch_for pool (Command.modprobe args) = false

unfoldable pub loaded : Text → Log → Option Command
loaded pool [] = none
loaded pool ((c, out) ∷ log) =
    let before = loaded pool log in if is_batch_for pool c && succeeded out then some c else before

abbrev pub is_newline : ℕ → Bool
is_newline c = c == 10

-- A name that ends a line is found in no other name.
line_start :
    (p q r : Text)
    → IsFree is_newline p
    → IsFree is_newline q
    → starts_with (p ++ (10 ∷ [])) (q ++ (10 ∷ r)) ≡ true
    → text_eq p q ≡ true
unfolding starts_with text_eq
line_start [] [] r f g e = refl
line_start [] (d ∷ q) r f g e = absurd (ground (arith, e, g.0))
line_start (c ∷ p) [] r f g e = absurd (ground (arith, e, f.0))
line_start (c ∷ p) (d ∷ q) r f g e = ground (arith, e, line_start p q r f.1 g.1)

own_batch :
    (pool : Text) (ips : List Text)
    → is_batch_for pool (Command.nft_batch (pool_batch pool ips)) ≡ true
unfolding pool_batch
own_batch pool ips =
    starts_with-append (flush_line pool)
      (if is_empty ips then [] else dnat_rule (pool_chain pool) ips)

other_batch :
    (q p : Text) (ips : List Text)
    → IsFree is_newline q
    → IsFree is_newline p
    → text_eq q p ≡ false
    → is_batch_for q (Command.nft_batch (pool_batch p ips)) ≡ false
unfolding pool_batch starts_with
other_batch q p ips f g n =
    elim (Bool-cases (is_batch_for q (Command.nft_batch (pool_batch p ips)))) [
      | inr e ↦ e
      | inl e ↦ absurd (
          clash (
            line_start q p (if is_empty ips then [] else dnat_rule (pool_chain p) ips) f g
              (assoc e)))
    ]
  where
    clash : text_eq q p ≡ true → ⊥
    clash e = ground (arith, e, n)

    assoc :
        is_batch_for q (Command.nft_batch (pool_batch p ips)) ≡ true
        → starts_with
            (q ++ (10 ∷ []))
            (p ++ (10 ∷ (if is_empty ips then [] else dnat_rule (pool_chain p) ips)))
          ≡ true
    assoc e =
        subst (λ t. starts_with (q ++ (10 ∷ [])) t ≡ true)
          (append_assoc p (10 ∷ []) (if is_empty ips then [] else dnat_rule (pool_chain p) ips)) e

-- What the task remembers of each pool, nftables has.
pub record Remembers (s : PoolState) : Type 0 where
  pub holds :
      (pool : Text) (ips : List Text)
      → IsFree is_newline pool
      → get pool s.last ≡ some ips
      → loaded pool s.log ≡ some (Command.nft_batch (pool_batch pool ips))

module _ (host : Host) where
  flushed-loaded :
      (pool : Text) (removal : Bool) (log : Log)
      → loaded pool (flushed host removal log) ≡ loaded pool log
  unfolding loaded conntrack_flush
  flushed-loaded pool true log = refl
  flushed-loaded pool false log = refl

  failed_batch :
      (pool : Text) (c : Command) (out : Option Output) (log : Log)
      → succeeded out ≡ false
      → loaded pool ((c, out) ∷ log) ≡ loaded pool log
  unfolding loaded
  failed_batch pool c out log e = rw e (ground arith)

  taken_batch :
      (pool : Text) (c : Command) (out : Output) (log : Log)
      → out.success ≡ true
      → is_batch_for pool c ≡ true
      → loaded pool ((c, some out) ∷ log) ≡ some c
  unfolding loaded
  taken_batch pool c out log e b = rw b (rw e refl)

  passed_batch :
      (pool : Text) (c : Command) (out : Option Output) (log : Log)
      → is_batch_for pool c ≡ false
      → loaded pool ((c, out) ∷ log) ≡ loaded pool log
  unfolding loaded
  passed_batch pool c out log b = rw b refl

  applied-Remembers :
      (p : PoolBinding) (ips : List Text) (removal : Bool) (s : PoolState) (out : Option Output)
      → IsFree is_newline p.name
      → Remembers s
      → Remembers (
          applied host p ips removal s.last
            (done_if host out, (Command.nft_batch (pool_batch p.name ips), out) ∷ s.log))
  applied-Remembers p ips removal s none f r = record {
    holds = λ q js g e.
        failed_batch q (Command.nft_batch (pool_batch p.name ips)) none s.log refl
        ∙ r.holds q js g e;
  }
  applied-Remembers p ips removal s (some out) f r = by_success out.success refl
    where
      same_batch :
          (q : Text) (js : List Text)
          → q ≡ p.name
          → get q (insert p.name ips s.last) ≡ some js
          → Command.nft_batch (pool_batch p.name ips) ≡ Command.nft_batch (pool_batch q js)
      same_batch q js n h =
          ap₂ (λ a b. Command.nft_batch (pool_batch a b)) (sym n)
            (cc (
              sym (get-insert_same p.name ips s.last)
              ∙ ap (λ t. get t (insert p.name ips s.last)) (sym n)
              ∙ h))

      by_name :
          (q : Text) (js : List Text)
          → IsFree is_newline q
          → out.success ≡ true
          → get q (insert p.name ips s.last) ≡ some js
          → loaded q ((Command.nft_batch (pool_batch p.name ips), some out) ∷ s.log)
            ≡ some (Command.nft_batch (pool_batch q js))
      by_name q js g e h = elim (Bool-cases (text_eq q p.name)) [
        | inl n ↦
            taken_batch q (Command.nft_batch (pool_batch p.name ips)) out s.log e (
              subst (λ t. is_batch_for t (Command.nft_batch (pool_batch p.name ips)) ≡ true)
                (sym (text_eq_sound q p.name n)) (own_batch p.name ips))
            ∙ ap some (same_batch q js (text_eq_sound q p.name n) h)
        | inr n ↦
            passed_batch q (Command.nft_batch (pool_batch p.name ips)) (some out) s.log
              (other_batch q p.name ips g f n)
            ∙ r.holds q js g (sym (get-insert_other p.name q ips s.last n) ∙ h)
      ]

      by_success :
          (b : Bool)
          → out.success ≡ b
          → Remembers (
              applied host p ips removal s.last (
                if b then some (trim out.stdout) else none,
                (Command.nft_batch (pool_batch p.name ips), some out) ∷ s.log,
              ))
      by_success false e = record {
        holds = λ q js g h.
            failed_batch q (Command.nft_batch (pool_batch p.name ips)) (some out) s.log e
            ∙ r.holds q js g h;
      }
      by_success true e = record {
        holds = λ q js g h.
            flushed-loaded q removal ((Command.nft_batch (pool_batch p.name ips), some out) ∷ s.log)
            ∙ by_name q js g e h;
      }

  module _ (decode : Text → Option (List Text)) where
    reconcile_to-Remembers :
        (p : PoolBinding) (s : PoolState) (o : Option (List Text))
        → IsFree is_newline p.name
        → Remembers s
        → Remembers (reconcile_to host decode p s o)
    unfolding apply_proxy_pool nft_batch
    reconcile_to-Remembers p s none f r = r
    reconcile_to-Remembers p s (some ips) f r =
        elim (Bool-cases (is_same (get p.name s.last) ips)) [
          | inl e ↦ rw e r
          | inr e ↦ rw e (
              applied-Remembers p ips (had_removal (get p.name s.last) ips) s
                (host s.log (Command.nft_batch (pool_batch p.name ips))) f r)
        ]

    reconcile_pool-Remembers :
        (p : PoolBinding) (a : Reply) (s : PoolState)
        → IsFree is_newline p.name
        → Remembers s
        → Remembers (reconcile_pool host decode p a s)
    unfolding reconcile_pool
    reconcile_pool-Remembers p a s f r = reconcile_to-Remembers p s (snapshot host decode a) f r

    module _ (valkey : Text → Log → Reply) where
      reconcile_all-Remembers :
          (pools : List PoolBinding) (s : PoolState)
          → All (λ p. IsFree is_newline p.name) pools
          → Remembers s
          → Remembers (reconcile_all host decode valkey pools s)
      unfolding reconcile_all
      reconcile_all-Remembers [] s f r = r
      reconcile_all-Remembers (p ∷ pools) s f r =
          reconcile_all-Remembers pools (reconcile_pool host decode p (valkey p.key s.log) s) f.1
            (reconcile_pool-Remembers p (valkey p.key s.log) s f.0 r)

      find-free :
          (pools : List PoolBinding) (key : Text) (s : PoolState)
          → All (λ p. IsFree is_newline p.name) pools
          → Remembers s
          → Remembers (reconcile_found host decode valkey (find (λ p. text_eq p.key key) pools) s)
      find-free [] key s f r = r
      find-free (p ∷ pools) key s f r = elim (Bool-cases (text_eq p.key key)) [
        | inl e ↦ rw e (reconcile_pool-Remembers p (valkey p.key s.log) s f.0 r)
        | inr e ↦ rw e (find-free pools key s f.1 r)
      ]

      pool_turns-Remembers :
          (pools : List PoolBinding) (turns : List (Option Text)) (s : PoolState)
          → All (λ p. IsFree is_newline p.name) pools
          → Remembers s
          → Remembers (pool_turns host decode valkey pools turns s)
      unfolding pool_turns pool_turn
      pool_turns-Remembers pools [] s f r = r
      pool_turns-Remembers pools (none ∷ turns) s f r =
          pool_turns-Remembers pools turns (reconcile_all host decode valkey pools s) f
            (reconcile_all-Remembers pools s f r)
      pool_turns-Remembers pools (some key ∷ turns) s f r =
          pool_turns-Remembers pools turns
            (reconcile_found host decode valkey (find (λ p. text_eq p.key key) pools) s) f
            (find-free pools key s f r)

      -- After any number of messages and ticks, and whatever Valkey and the commands answer, the members
      -- that the task remembers of a pool are those of the last batch for its chain that nftables took,
      -- so that a batch that failed is tried again. The pools' names hold no line feed.
      pub proxy_pool_task-Remembers :
          (pools : List PoolBinding) (turns : List (Option Text)) (log : Log)
          → All (λ p. IsFree is_newline p.name) pools
          → Remembers (proxy_pool_task host decode valkey pools turns log)
      unfolding proxy_pool_task get
      proxy_pool_task-Remembers pools turns log f =
          let start : PoolState = record { last = []; log = log } in
          pool_turns-Remembers pools turns (reconcile_all host decode valkey pools start) f (
            reconcile_all-Remembers pools start f
              (record { holds = λ q js g e. absurd (nothing q js e) }))
        where
          nothing : (q : Text) (js : List Text) → get q [] ≡ some js → ⊥
          nothing q js e = ground (arith, e)
