-- ===== src/Tests.antt =====
-- A small platform, a license and some histories of requests, on which the theorems are applied.
pub mod Fixture
pub mod License
pub mod History
pub mod Keys
pub mod Requests
pub mod Wire
pub mod Kernel
pub mod Exchange
pub mod Playing
pub mod Browser
pub mod Objects
pub mod Interleaving
pub mod Modules
