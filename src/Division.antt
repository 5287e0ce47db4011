-- ===== src/Division.antt =====
-- `divmod128` and `divmod256` of src/uint256.c are one text over two widths. This is that text,
-- over the operations that it calls; Uint128/Division and Uint256/Division put them in.
pub mod Interface
pub mod Laws
pub mod Total
use tsc_vee.Base.{ℕ, zero, suc, ◌+◌, ◌-◌, ◌^◌, Bool, Option, some, if◌then◌else◌, u32, while, ◌>>=◌}

-- The operations of a width.
pub record Operations (W : Type 0) : Type 0 where
  pub clear : W
  pub one : W
  pub bits : W → Option ℕ
  pub shiftl : W → ℕ → W
  pub shiftr : W → ℕ → W
  pub gt : W → W → Bool
  pub gte : W → W → Bool
  pub minus : W → W → W
  pub or : W → W → W

-- The variables of the loop: `copyd`, `adder`, `resDiv`, `resMod`.
pub record Step (W : Type 0) : Type 0 where
  pub copyd : W
  pub adder : W
  pub res_div : W
  pub res_mod : W

pub record Quotient (W : Type 0) : Type 0 where
  pub div : W
  pub mod_ : W

module _ {W : Type 0} (ops : Operations W) (r : W) where
  open ops use {clear, one, bits, shiftl, shiftr, gt, gte, minus, or}

  -- `while (gte(&resMod, r))`
  unfoldable pub divmod_test : Step W → Bool
  divmod_test s = gte s.res_mod r

  unfoldable pub divmod_body : Step W → Step W
  divmod_body s =
      let taken = gte s.res_mod s.copyd in
      record {
        copyd = shiftr s.copyd 1;
        adder = shiftr s.adder 1;
        res_div = if taken then or s.res_div s.adder else s.res_div;
        res_mod = if taken then minus s.res_mod s.copyd else s.res_mod;
      }

  -- Before the loop: the divisor is aligned with the dividend, and taken back by one place if
  -- that went too far.
  unfoldable pub divmod_start : W → ℕ → Step W
  divmod_start l diff_bits =
      let copyd = shiftl r diff_bits in
      let adder = shiftl one diff_bits in
      let back = gt copyd l in
      record {
        copyd = if back then shiftr copyd 1 else copyd;
        adder = if back then shiftr adder 1 else adder;
        res_div = clear;
        res_mod = l;
      }

  -- `none`: the loop did not end within `fuel` rounds.
  unfoldable pub divmod : ℕ → W → Option (Quotient W)
  divmod fuel l = do
    bits_l ← bits l
    bits_r ← bits r
    let diff_bits = u32 (bits_l + 2 ^ 32 - bits_r)
    let divided = do
      s ← while fuel divmod_test divmod_body (divmod_start l diff_bits)
      some (record { div = s.res_div; mod_ = s.res_mod })
    if gt r l then some (record { div = clear; mod_ = l }) else divided
