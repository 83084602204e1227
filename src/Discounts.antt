-- ===== src/Discounts.antt =====
-- services/bookingDiscounts.js: discounts in whole cents, their allocation to the lines of a booking,
-- and the plan that collects the allocations of every source.
pub mod Allocation
pub mod Plan
pub mod Examples
pub mod Lines
