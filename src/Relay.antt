-- ===== src/Relay.antt =====
-- src/node/relay.js and src/node/udp.js: the tunnels with one target.
pub mod Udp
pub mod Tcp
