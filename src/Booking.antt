-- ===== src/Booking.antt =====
-- The making of a reservation: which barbers are tried for its members.
pub mod Attempts
pub mod Examples
