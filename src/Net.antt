-- ===== src/Net.antt =====
-- Go's package net, as far as the program calls it, and pkg/util/net.go.
pub mod Ip
pub mod Parse
pub mod Util
pub mod Bytes
pub mod Examples
