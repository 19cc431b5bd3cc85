-- ===== src/Tests.antt =====
-- Runs of the definitions on concrete data, one for each theorem that has conditions or parameters.
pub mod Data
mod Vless
mod Frames
mod Mux
mod Limits
mod Relay
mod Users
mod Uuid
mod Stats
mod Doh
mod DnsCache
mod Http
mod Tokens
mod Session
mod Routes
