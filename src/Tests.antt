-- ===== src/Tests.antt =====
-- Tests of the model on a small platform, and the theorems at concrete inputs.
mod Toy
mod Fixture
mod Quality
mod Handlers
mod Incoming
mod Outgoing
mod Protocol
mod Lifecycle
mod Realize
mod Synced
mod Numbering
mod Memory
mod Accounts
mod Reading
mod Handshake
mod Noise
mod Predicted
mod Repeats
mod Example
mod Debug
