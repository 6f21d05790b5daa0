-- ===== src/Tests.antt =====
-- Runs of the model on concrete inputs, and each theorem's instance at one.
mod Client
mod Packets
mod Handlers
mod Windows
mod Server
mod Copy
mod PollSet
mod Service
mod Session
mod Repair
mod Overflow
mod GivingUp
mod Children
