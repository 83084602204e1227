-- ===== src/Promotions/Validation/Passing.antt =====
-- What is enough for a candidate to pass `validatePromotionCandidate`.
use Prim.Native.String.{String}
