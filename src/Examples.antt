-- ===== src/Examples.antt =====
-- The theorems at concrete inputs, and the data they run on.
mod World
mod Workflow
mod Requests
mod Shell
mod Agent
mod Tokens
mod Accounts
mod Routes
mod Catalog
mod Registry
mod Sessions
mod Links
mod Network
mod Startup
mod Expiry
mod Output
