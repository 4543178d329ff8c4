-- ===== src/Odr.antt =====
-- Assignment 3/Code/ODR.c, the on-demand routing service.
pub mod Types
pub mod Routes
pub mod Ports
pub mod Local
pub mod Request
pub mod Reply
pub mod Data
pub mod Invariant
pub mod Rounds
pub mod Delivery
mod Tests
mod DeliveryTests
pub mod Flood
pub mod Duplicate
pub mod Forced
pub mod SetUp
pub mod Network
