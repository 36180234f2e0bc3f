-- ===== src/Scenarios.antt =====
-- Concrete runs of the program's parts.
mod Workflow
mod Jobs
mod Attempts
mod Workers
mod Retry
mod Vcd
mod Text
mod Http
mod Order
mod Command
mod Shared
mod Store
mod Fulfilled
