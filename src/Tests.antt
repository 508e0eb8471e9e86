-- ===== src/Tests.antt =====
-- Runs of the code at concrete inputs, and instances of the theorems.
mod Forwarding
mod Limits
mod Events
mod Forwarded
mod Settings
mod Balancing
mod Requests
mod Files
mod Network
mod Processes
mod Restarts
