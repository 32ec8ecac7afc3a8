-- ===== src/Tests.antt =====
-- Concrete inputs for the theorems, and each theorem at them.
mod Tables
mod Messages
mod Topics
mod Packets
mod Users
mod Connections
mod Workers
mod Servers
mod Deliveries
mod Systems
