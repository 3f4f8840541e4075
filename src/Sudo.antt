-- ===== src/Sudo.antt =====
-- nix/packages/sudo-auth-proxy/sudo-auth-proxy.py
pub mod Protocol
pub mod Rules
pub mod Security
pub mod Display
pub mod Server
pub mod Client
pub mod Safety
mod Examples
pub mod Chain
