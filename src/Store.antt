-- ===== src/Store.antt =====
-- The Postgres store behind server/internal/store: the rows, the connection, and the queries.
pub mod Rows
pub mod Conn
pub mod Tickets
pub mod Users
pub mod Catalog
pub mod Laws
pub mod Lookup
pub mod Agents
pub mod Inventory
pub mod Sessions
pub mod Pool
pub mod Audit
