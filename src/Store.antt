-- ===== src/Store.antt =====
-- internal/store: all SQL lives here. One module for each file of the package.
pub mod Requests
pub mod Audit
pub mod Policies
pub mod Principals
