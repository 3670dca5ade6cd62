-- ===== src/Tests.antt =====
-- Runs of the program on one small installation, and the theorems at them.
mod Installation
mod Stores
mod Leases
mod Stages
mod Rules
mod Runtime
mod Commands
mod Disk
mod Remote
