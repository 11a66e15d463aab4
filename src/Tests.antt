-- ===== src/Tests.antt =====
-- The theorems at concrete inputs, and runs of the definitions.
mod Registry
mod Window
mod ToolFormat
mod Session
mod Daemon
mod Settings
mod Scripted
mod Derive
mod Opening
mod Ledger
mod Connection
mod Agreement
mod Requests
mod Client
