-- ===== src/Tests.antt =====
-- The theorems at concrete inputs.
mod Setup
mod Session
mod Commands
mod Engine
mod Database
mod Stores
mod Backends
mod Http
mod Watching
mod Options
mod Login
mod Forward
mod World
mod Errors
mod Acceptor
