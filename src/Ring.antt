-- ===== src/Ring.antt =====
-- ipseccore/src/lib.rs: the jhash ring of the load balancer, shared by the render of its rules and
-- by the choice of the node that owns a customer.
pub mod Hash
pub mod Owner
pub mod Render
pub mod Agreement
mod Tests
