-- ===== src/Uint128/Product.antt =====
-- `mul128`: schoolbook multiplication on four digits of 32 bits.
pub mod Laws
use tsc_vee.Base.{ℕ, zero, suc, ◌+◌, ◌-◌, ◌*◌, u64, bit_and}
use tsc_vee.Uint128.{Uint128, add128, shl64, shr64}

abbrev pub low32 : ℕ → ℕ
low32 x = bit_and x 0xffff_ffff

-- `top[x]` and `bottom[y]`: the digits of a number, the highest at index 0.
unfoldable pub digit32 : Uint128 → ℕ → ℕ
digit32 number zero = shr64 number.upper 32
digit32 number (suc zero) = low32 number.upper
digit32 number (suc (suc zero)) = shr64 number.lower 32
digit32 number (suc (suc (suc i))) = low32 number.lower

-- `products[i][y]`, where the loop writes `products[3 - x][y] = top[x] * bottom[y]`.
unfoldable pub products128 : Uint128 → Uint128 → ℕ → ℕ → ℕ
products128 number1 number2 i y = u64 (digit32 number1 (3 - i) * digit32 number2 y)

-- The last part of `mul128`: the four columns are shifted into place and added.
unfoldable pub join128 : ℕ → ℕ → ℕ → ℕ → Uint128
join128 first32 second32 third32 fourth32 =
    let target =
      add128 (record { upper = shl64 first32 32; lower = 0 })
        (record { upper = shr64 third32 32; lower = shl64 third32 32 }) in
    let tmp2 = add128 (record { upper = second32; lower = 0 }) target in
    add128 (record { upper = 0; lower = fourth32 }) tmp2

-- The middle part: the columns of the ten products that matter, and their sum.
unfoldable pub columns128 : (ℕ → ℕ → ℕ) → Uint128
columns128 products =
    let fourth32 = low32 (products 0 3) in
    let third32 = u64 (low32 (products 0 2) + shr64 (products 0 3) 32) in
    let second32 = u64 (low32 (products 0 1) + shr64 (products 0 2) 32) in
    let first32 = u64 (low32 (products 0 0) + shr64 (products 0 1) 32) in
    let third32' = u64 (third32 + low32 (products 1 3)) in
    let second32' = u64 (second32 + (low32 (products 1 2) + shr64 (products 1 3) 32)) in
    let first32' = u64 (first32 + (low32 (products 1 1) + shr64 (products 1 2) 32)) in
    let second32'' = u64 (second32' + low32 (products 2 3)) in
    let first32'' = u64 (first32' + (low32 (products 2 2) + shr64 (products 2 3) 32)) in
    let first32''' = u64 (first32'' + low32 (products 3 3)) in
    join128 first32''' second32'' third32' fourth32

unfoldable pub mul128 : Uint128 → Uint128 → Uint128
mul128 number1 number2 = columns128 (products128 number1 number2)
