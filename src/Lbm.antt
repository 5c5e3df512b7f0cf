-- ===== src/Lbm.antt =====
-- pkg/lbm
pub mod Common
pub mod Lvs
pub mod Nginx
pub mod Handlers
pub mod Watch
pub mod Roles
pub mod Render
pub mod Template
pub mod Service
pub mod Start
