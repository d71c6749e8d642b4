-- ===== src/Tests.antt =====
-- Runs at fixed inputs, and the theorems applied there.
mod Canaries
mod Arenas
mod Registrations
mod Wipes
mod Buffers
mod Locks
mod Files
mod Accesses
mod Numbers
mod Reduction
mod Signals
mod Words
mod Transports
mod Logs
mod Seals
mod Macs
