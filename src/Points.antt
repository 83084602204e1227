-- ===== src/Points.antt =====
-- services/pointsService.js: the points of a client.
pub mod Adjustment
pub mod Token
