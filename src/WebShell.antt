-- ===== src/WebShell.antt =====
-- server/internal/webshell and the terminal handler of server/internal/httpapi/webshell.go: the
-- command filter of a Web Shell session and the gate that holds back a line until Enter.
pub mod Filter
pub mod Strictest
pub mod Gate
pub mod Remote
pub mod Gating
pub mod Confirming
pub mod Manager
pub mod Sessions
pub mod Revoked
pub mod Output
pub mod Broadcasting
pub mod Recorder
pub mod Pumping
