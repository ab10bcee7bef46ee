-- ===== src/Proxy.antt =====
-- squid-infoproxy: the helper that authorises a proxy request against the allow-lists in Valkey.
pub mod Rule
pub mod Store
pub mod Resp
pub mod Args
pub mod Client
pub mod Url
pub mod Decide
