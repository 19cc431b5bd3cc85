-- ===== src/Vless.antt =====
-- src/vless.js: the protocol helpers that both builds share.
pub mod Queue
pub mod Address
pub mod Header
