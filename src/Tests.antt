-- ===== src/Tests.antt =====
-- Runs of the code at concrete inputs, and the theorems at inputs that meet their hypotheses.
mod Additions
mod Archives
mod Cipher
mod Commands
mod Connections
mod Disk
mod Host
mod Listeners
mod Locks
mod Manifests
mod Passwords
mod Messages
mod PrivatePaths
mod Profiles
mod Resumptions
mod Runs
mod Sessions
mod Streams
mod Unpacking
mod Unsealed
