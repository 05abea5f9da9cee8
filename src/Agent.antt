-- ===== src/Agent.antt =====
-- The project agent, agent/internal, and the server's end of its control stream,
-- server/internal/agentctl: the rules that the gateway of the policy engine opens and closes.
pub mod Forward
pub mod Control
pub mod Rules
pub mod Delivery
pub mod Registry
pub mod Enlisting
pub mod Registering
pub mod Nft
pub mod Overlay
pub mod Main
pub mod Messages
pub mod Client
pub mod Routing
pub mod Exchange
