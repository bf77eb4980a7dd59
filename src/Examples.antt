-- ===== src/Examples.antt =====
-- Concrete inputs, at which the theorems' hypotheses hold.
pub mod Fixtures
pub mod Codec
pub mod Fragments
pub mod Messages
pub mod Buses
pub mod Systems
pub mod Compositions
pub mod Subscribers
pub mod Factories
pub mod Addresses
pub mod Losses
pub mod Caches
pub mod Routes
pub mod Networks
