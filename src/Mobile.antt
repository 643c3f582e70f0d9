-- ===== src/Mobile.antt =====
-- The entry points of the Android library, in mobile/: the packet queue of queued_packet_conn.go,
-- the local DNS server of dns_tcp_conn.go, the proxy of bill_proxy.go and the life cycle of
-- mobile_api.go, each in a module of its own.
pub mod Queue
pub mod Frames
pub mod Bridge
pub mod Api
pub mod Tests
