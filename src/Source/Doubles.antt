-- ===== src/Source/Doubles.antt =====
-- The arithmetic of C++'s double that the library uses, as a parameter: its type and operations.
-- An RTPTime is one double, a number of seconds (src/rtptimeutilities.h).
use jrtplib.Prelude.{ℕ, Bool}

pub record DoubleOps (Double : Type 0) : Type 0 where
  pub of_uint32 : ℕ → Double
  pub to_uint32 : Double → ℕ
  pub neg : Double → Double
  pub add : Double → Double → Double
  pub sub : Double → Double → Double
  pub div : Double → Double → Double
  pub lt : Double → Double → Bool
