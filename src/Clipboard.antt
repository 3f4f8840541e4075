-- ===== src/Clipboard.antt =====
-- nix/packages/clipboard-bridge/clipboard-bridge.py
pub mod Security
pub mod Rules
pub mod Schema
pub mod Names
pub mod Hub
pub mod Handlers
pub mod Loop
pub mod Isolation
pub mod Delivery
pub mod Admissions
mod Examples
