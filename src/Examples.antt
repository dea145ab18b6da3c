-- ===== src/Examples.antt =====
-- Runs of the code at concrete inputs.
mod Circuit
mod Tickets
mod Workers
mod Launch
mod Substitution
mod Configuration
mod Exits
mod Routing
mod Slots
mod Epic
mod Supervisor
mod Connections
mod Claims
mod Streams
mod Tokens
mod Locks
mod Changes
mod Sessions
