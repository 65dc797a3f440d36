-- ===== src/Tests.antt =====
-- Test data and runs on concrete inputs.
mod Hubs
mod Windows
mod Cursors
mod Shapes
mod Rows
mod Decoders
mod Turns
mod Stores
mod Streams
mod Syncs
mod Servers
mod Sources
mod Readings
mod Daemons
mod Watches
