-- ===== src/Ipam.antt =====
-- pkg/ipam
pub mod Address
pub mod Types
pub mod Backend
pub mod Etcd
pub mod Allocator
pub mod State
