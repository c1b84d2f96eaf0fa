-- ===== src/Core/Double.antt =====
-- The type `double`: the constants, comparisons and operations that the source uses, as parameters,
-- and the laws of IEEE comparison that the proofs rely on.
use fin_core_streaming_syste.Prelude.{ℕ, ◌≡◌, Bool, true, false}

pub record Double : Type 1 where
  pub Num : Type 0
  pub nought : Num
  pub one : Num
  pub half : Num
  pub hundredth : Num
  pub lt : Num → Num → Bool
  pub le : Num → Num → Bool
  pub eq : Num → Num → Bool
  pub add : Num → Num → Num
  pub sub : Num → Num → Num
  pub mul : Num → Num → Num
  pub div : Num → Num → Num
  pub neg : Num → Num
  pub of_u64 : ℕ → Num

-- A value is NaN where it is not `<=` itself. The order is connected on the positive numbers (the
-- two zeros are different values that compare equal).
pub record IsIeee (D : Double) : Type 0 where
  pub lt_irrefl : (a : D.Num) → D.lt a a ≡ false
  pub lt_trans : (a b c : D.Num) → D.lt a b ≡ true → D.lt b c ≡ true → D.lt a c ≡ true
  pub numbers_of_le : (a b : D.Num) → D.le a b ≡ true → (D.le a a ≡ true) × (D.le b b ≡ true)
  pub numbers_of_lt : (a b : D.Num) → D.lt a b ≡ true → (D.le a a ≡ true) × (D.le b b ≡ true)
  pub le_of_lt_le : (a b c : D.Num) → D.lt a b ≡ true → D.le b c ≡ true → D.le a c ≡ true
  pub positive : (a : D.Num) → D.le a a ≡ true → D.le a D.nought ≡ false → D.lt D.nought a ≡ true
  pub not_positive : (a : D.Num) → D.lt D.nought a ≡ true → D.le a D.nought ≡ false
  pub connected :
      (a b : D.Num)
      → D.lt D.nought a ≡ true
      → D.lt D.nought b ≡ true
      → D.lt a b ≡ false
      → D.lt b a ≡ false
      → a ≡ b
