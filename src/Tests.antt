-- ===== src/Tests.antt =====
-- Runs of the model on concrete inputs, one for each theorem with a condition.
mod Packets
mod World
mod Push
mod Reports
mod Endings
mod Governor
mod Shared
mod Client
mod Entry
mod Delivery
