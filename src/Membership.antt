-- ===== src/Membership.antt =====
-- services/membershipService.js: what a membership covers of an appointment.
pub mod Coverage
pub mod State
pub mod Consumption
pub mod Examples
