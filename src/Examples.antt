-- ===== src/Examples.antt =====
-- Concrete runs: what the theorems say of particular buffers, packets, sessions and queues.
mod Bits
mod Packets
mod Sessions
mod Queues
mod Requests
mod Measures
mod Inboxes
mod Deliveries
mod Bytes
mod Texts
mod Utils
mod Addresses
mod Logs
mod Checks
mod Programs
