-- ===== src/Node.antt =====
-- ipsecnode: the daemon of a VPN concentrator.
pub mod Site
pub mod Proposals
pub mod Config
pub mod Host
pub mod Nat
pub mod Vrf
pub mod Pools
pub mod Vici
pub mod Daemon
pub mod Credentials
pub mod Ondemand
