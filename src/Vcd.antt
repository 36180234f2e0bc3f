-- ===== src/Vcd.antt =====
-- internal/clients/vcd: the client of the VMware Cloud Director API, a component per child.
pub mod ApiError
pub mod Errors
pub mod Client
pub mod Types
pub mod Request
pub mod Shared
