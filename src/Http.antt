-- ===== src/Http.antt =====
-- server/internal/httpapi: the handlers, and the routes that put the guards before them.
pub mod Tickets
pub mod Accounts
pub mod Admission
pub mod Owners
pub mod Sessions
pub mod Catalog
pub mod Admins
pub mod Terminal
pub mod Attaching
