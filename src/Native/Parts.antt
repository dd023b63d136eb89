-- ===== src/Native/Parts.antt =====
-- The maps inside a reply of resolvd-core/src/lib.rs. What a field does to the variable is a function
-- of the value so far, and the fields are listed as they are written.
pub mod Arms
pub mod Entries
pub mod RoundTrip
pub mod Records
pub mod Addresses
pub mod Scopes
pub mod Counters
