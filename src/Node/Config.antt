-- ===== src/Node/Config.antt =====
-- ipsecnode/src/nodeconfig.rs: the servers of the backend and the port splits of each. Reading the
-- file is not modelled.
use fleetsuite.Common.{ℕ, Option, none, List, if◌then◌else◌, map_option}
use fleetsuite.Common.Text.{Text, codes, text_eq}

pub record SplitRule : Type 0 where
  pub ports : List ℕ
  pub src_ports : List ℕ
  pub port_from : Option ℕ
  pub port_to : Option ℕ
  pub dnat_to : Option Text
  pub pool : Option Text

pub record ServerConfig : Type 0 where
  pub real_ip : Text
  pub split : List SplitRule

pub record BackendConfig : Type 0 where
  pub access_server : Option ServerConfig
  pub sd_server : Option ServerConfig
  pub em_server : Option ServerConfig

unfoldable pub server_for : BackendConfig → Text → Option ServerConfig
unfolding text_eq
server_for b role =
    if text_eq role (codes "access_server")
    then b.access_server
    else if text_eq role (codes "sd_server")
    then b.sd_server
    else if text_eq role (codes "em_server")
    then b.em_server
    else none

unfoldable pub real_ip_for : BackendConfig → Text → Option Text
unfolding server_for
real_ip_for b role = map_option (λ s. s.real_ip) (server_for b role)
