-- ===== src/Tests.antt =====
-- Runs of the model on concrete inputs.
mod Paths
mod Bindings
mod Tracing
mod Filters
mod Extensions
mod Waits
mod Policies
mod Programs
mod Messages
