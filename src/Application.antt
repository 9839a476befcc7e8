-- ===== src/Application.antt =====
-- application/: the arbitration of a tenant's decisions over leases, journal and state store.
pub mod Recovery
pub mod Arbiter
