-- ===== src/Dns.antt =====
-- dns/src/lib.rs: the DNS wire format.
pub mod Name
pub mod Wire
pub mod Case
pub mod Types
pub mod Header
pub mod Records
pub mod Message
pub mod Reverse
pub mod Display
