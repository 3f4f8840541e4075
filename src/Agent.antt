-- ===== src/Agent.antt =====
-- nix/packages/ssh-agent-proxy/ssh-agent-proxy.py
pub mod Wire
pub mod Framing
pub mod Rules
pub mod State
pub mod Purpose
pub mod SessionBind
pub mod Identities
pub mod Offers
pub mod Sign
pub mod Mutation
pub mod Loop
pub mod Safety
pub mod Replies
mod Examples
