-- ===== src/Promotions.antt =====
-- services/promociones/promocionesEngine.js: which promotions apply to a booking, and for how much.
pub mod Types
pub mod Discount
pub mod Validation
pub mod Evaluation
pub mod Conflicts
pub mod Examples
