-- ===== src/Node/Pools/Tests.antt =====
-- The theorems on pools at a snapshot of two proxies, and a run of the task.
use fleetsuite.Common.{Option, ◌≡◌, refl, true, none, some, List, [], ◌∷◌, arith}
use fleetsuite.Common.Text.{Text, codes, text_eq, show_nat, join}
use fleetsuite.Node.Host.{Host, Reply}
use fleetsuite.Node.Pools.{
  PoolBinding, pool_members, dedup, proxy_pool_task, pool_batch, dnat_rule, elements_from,
}
use fleetsuite.Node.Pools.Loaded.{Remembers, proxy_pool_task-Remembers}
use fleetsuite.Scale.{sort_by_ip, key_insert}
use fleetsuite.Common.Net.{parse_ipv4}

abbrev agreeing : Host
agreeing = λ log c. some (record { success = true; stdout = []; stderr = [] })

abbrev two : Text → Option (List Text)
two json = some (codes "10.0.0.9" ∷ codes "10.0.0.2" ∷ codes "x" ∷ codes "10.0.0.9" ∷ [])

abbrev proxy : PoolBinding
proxy = record { name = codes "proxy"; key = codes "fleetipsec:proxy:pool" }

members_sorted :
    pool_members (codes "10.0.0.9" ∷ codes "10.0.0.2" ∷ codes "x" ∷ codes "10.0.0.9" ∷ [])
    ≡ codes "10.0.0.2" ∷ codes "10.0.0.9" ∷ []
unfolding pool_members dedup sort_by_ip parse_ipv4 key_insert text_eq
members_sorted = refl

batch_printed :
    pool_batch (codes "proxy") (codes "10.0.0.2" ∷ codes "10.0.0.9" ∷ [])
    ≡ codes
        "flush chain ip ipsecnode_bnat pool_proxy\nadd rule ip ipsecnode_bnat pool_proxy dnat to jhash ip saddr mod 2 map { 0 : 10.0.0.2, 1 : 10.0.0.9 }\n"
unfolding pool_batch dnat_rule elements_from show_nat join
batch_printed = refl

proxy_pool_task-Remembers_example : Remembers (
    proxy_pool_task agreeing two
      (λ key log. Reply.reply (some []))
      (proxy ∷ [])
      (none ∷ some proxy.key ∷ [])
      [])
proxy_pool_task-Remembers_example =
    proxy_pool_task-Remembers agreeing two (λ key log. Reply.reply (some [])) (proxy ∷ [])
      (none ∷ some proxy.key ∷ []) [] (ground arith)
