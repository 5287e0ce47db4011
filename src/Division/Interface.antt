-- ===== src/Division/Interface.antt =====
-- What division needs to know of a width: the operations compute on the values.
use tsc_vee.Base.{ℕ, ◌+◌, ◌-◌, ◌*◌, ◌/◌, ◌%◌, ◌^◌, ◌<◌, ◌≤◌, ◌≡◌, some, ltb, leb, bit_or}
use tsc_vee.Base.BitLength.{IsBitLength}
use tsc_vee.Division.{Operations}

pub record Laws {W : Type 0} (ops : Operations W) : Type 1 where
  pub width : ℕ
  pub small_width : width < 2 ^ 31
  pub IsWord : W → Type 0
  pub value : W → ℕ
  pub value-lt : (a : W) → IsWord a → value a < 2 ^ width
  pub clear_lem : IsWord ops.clear × (value ops.clear ≡ 0)
  pub one_lem : IsWord ops.one × (value ops.one ≡ 1)
  pub bits_lem :
      (a : W) → IsWord a → (n : ℕ) × (ops.bits a ≡ some n) × IsBitLength (value a) n × (n ≤ width)
  pub shiftl_lem :
      (a : W) (k : ℕ)
      → IsWord a
      → IsWord (ops.shiftl a k) × (value (ops.shiftl a k) ≡ (value a * 2 ^ k) % 2 ^ width)
  pub shiftr_lem :
      (a : W) (k : ℕ)
      → IsWord a
      → IsWord (ops.shiftr a k) × (value (ops.shiftr a k) ≡ value a / 2 ^ k)
  pub gt_lem : (a b : W) → IsWord a → IsWord b → ops.gt a b ≡ ltb (value b) (value a)
  pub gte_lem : (a b : W) → IsWord a → IsWord b → ops.gte a b ≡ leb (value b) (value a)
  pub minus_lem :
      (a b : W)
      → IsWord a
      → IsWord b
      → IsWord (ops.minus a b)
        × (value (ops.minus a b) ≡ (value a + 2 ^ width - value b) % 2 ^ width)
  pub or_lem :
      (a b : W)
      → IsWord a
      → IsWord b
      → IsWord (ops.or a b) × (value (ops.or a b) ≡ bit_or (value a) (value b))
