-- ===== src/Uint256/Product.antt =====
-- `mul256`: schoolbook multiplication on four digits of 64 bits.
pub mod Laws
use tsc_vee.Base.{ℕ, zero, suc, ◌-◌}
use tsc_vee.Uint128.{Uint128, add128, shiftl128, clear128, copy128}
use tsc_vee.Uint128.Product.{mul128}
use tsc_vee.Uint256.{Uint256, add256}

-- A 128-bit number with the given lower word, as in `UPPER(tmp) = 0; LOWER(tmp) = x;`.
abbrev pub word128 : ℕ → Uint128
word128 x = record { upper = 0; lower = x }

-- `top[x]` and `bottom[y]`: the digits of a number, the highest at index 0.
unfoldable pub digit64 : Uint256 → ℕ → Uint128
digit64 number zero = word128 number.upper.upper
digit64 number (suc zero) = word128 number.upper.lower
digit64 number (suc (suc zero)) = word128 number.lower.upper
digit64 number (suc (suc (suc i))) = word128 number.lower.lower

-- `products[i][y]`, where the loop writes `products[3 - x][y]` from `top[x]` and `bottom[y]`.
unfoldable pub products256 : Uint256 → Uint256 → ℕ → ℕ → Uint128
products256 number1 number2 i y = mul128 (digit64 number1 (3 - i)) (digit64 number2 y)

-- The last part of `mul256`: the columns are put into place and added. The upper word of the
-- third column goes to the topmost word, as the source has it.
unfoldable pub join256 : Uint128 → Uint128 → Uint128 → Uint128 → Uint256
unfolding clear128 copy128
join256 first64 second64 third64 fourth64 =
    let target1 : Uint256 = record { upper = shiftl128 first64 64; lower = clear128 } in
    let target2 : Uint256 = record {
      upper = record { upper = third64.upper; lower = 0 };
      lower = shiftl128 third64 64;
    } in
    let target = add256 target1 target2 in
    let target1' : Uint256 = record { upper = copy128 second64; lower = clear128 } in
    let target2' = add256 target1' target in
    let target1'' : Uint256 = record { upper = clear128; lower = copy128 fourth64 } in
    add256 target1'' target2'

-- The third column, which is where a carry can arise that is then misplaced.
unfoldable pub third_column : (ℕ → ℕ → Uint128) → Uint128
third_column products =
    let third64 = add128 (word128 (products 0 2).lower) (word128 (products 0 3).upper) in
    add128 (word128 (products 1 3).lower) third64

-- The middle part: the columns of the ten products that matter.
unfoldable pub columns256 : (ℕ → ℕ → Uint128) → Uint256
columns256 products =
    let fourth64 = word128 (products 0 3).lower in
    let second64 = add128 (word128 (products 0 1).lower) (word128 (products 0 2).upper) in
    let first64 = add128 (word128 (products 0 0).lower) (word128 (products 0 1).upper) in
    let third64 = third_column products in
    let tmp2 = add128 (word128 (products 1 2).lower) second64 in
    let second64' = add128 (word128 (products 1 3).upper) tmp2 in
    let tmp2' = add128 (word128 (products 1 1).lower) first64 in
    let first64' = add128 (word128 (products 1 2).upper) tmp2' in
    let second64'' = add128 (word128 (products 2 3).lower) second64' in
    let tmp2'' = add128 (word128 (products 2 2).lower) first64' in
    let first64'' = add128 (word128 (products 2 3).upper) tmp2'' in
    let first64''' = add128 (word128 (products 3 3).lower) first64'' in
    join256 first64''' second64'' third64 fourth64

unfoldable pub mul256 : Uint256 → Uint256 → Uint256
mul256 number1 number2 = columns256 (products256 number1 number2)
