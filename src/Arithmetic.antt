-- ===== src/Arithmetic.antt =====
-- The arithmetic, comparison and bit instructions of include/instructions.h. An instruction gets the
-- stack-top pointer by value and works on the stack space; the space after it is its result, and
-- `none` stands for a division that does not end.
pub mod Handlers
pub mod Extend
pub mod Laws
mod Tests
use tsc_vee.Base.{
  ℕ, ◌-◌, ◌*◌, ◌/◌, ◌%◌, ◌^◌, List, ◌&&◌, Option, some, if◌then◌else◌, ltb, ◌==◌, u32, bit_and,
  ◌>>=◌,
}
use tsc_vee.Uint256.{
  Uint256, zero256, copy256, add256, minus256, gt256, equal256, and256, or256, xor256, not256,
  shiftl256, shiftr256,
}
use tsc_vee.Uint256.Product.{mul256}
use tsc_vee.Uint256.Division.{divmod256}
use tsc_vee.Stack.{item, set_item, stack_top_get, zero_item, one_item}

unfoldable pub pop : ℕ → List Uint256 → List Uint256
pop stack space = space

unfoldable pub jumpdest : ℕ → List Uint256 → List Uint256
jumpdest stack space = space

unfoldable pub add : ℕ → List Uint256 → List Uint256
add stack space =
    let y = stack - 1 in
    let target = add256 (item space stack) (item space y) in set_item space y (copy256 target)

unfoldable pub mul : ℕ → List Uint256 → List Uint256
mul stack space =
    let y = stack - 1 in
    let target = mul256 (item space stack) (item space y) in set_item space y (copy256 target)

unfoldable pub sub : ℕ → List Uint256 → List Uint256
sub stack space =
    let x = stack_top_get stack 0 in
    let y = stack_top_get stack 1 in
    let target = minus256 (item space x) (item space y) in set_item space y (copy256 target)

unfoldable pub div_ : ℕ → List Uint256 → Option (List Uint256)
div_ stack space =
    let tmp = stack_top_get stack 1 in
    if zero256 (item space tmp) then some (set_item space tmp (copy256 zero_item)) else do
      q ← divmod256 (item space (stack_top_get stack 0)) (item space tmp)
      some (set_item space tmp (copy256 q.div))

unfoldable pub sdiv : ℕ → List Uint256 → Option (List Uint256)
sdiv stack space =
    let tmp = stack_top_get stack 1 in
    if zero256 (item space tmp) then some (set_item space tmp (copy256 zero_item)) else do
      q ← divmod256 (item space (stack_top_get stack 0)) (item space tmp)
      some (set_item space tmp (copy256 q.div))

unfoldable pub mod_ : ℕ → List Uint256 → Option (List Uint256)
mod_ stack space =
    let tmp = stack_top_get stack 1 in
    if zero256 (item space tmp) then some (set_item space tmp (copy256 zero_item)) else do
      q ← divmod256 (item space (stack_top_get stack 0)) (item space tmp)
      some (set_item space tmp (copy256 q.mod_))

unfoldable pub smod : ℕ → List Uint256 → Option (List Uint256)
smod stack space =
    let tmp = stack_top_get stack 1 in
    if zero256 (item space tmp) then some (set_item space tmp (copy256 zero_item)) else do
      q ← divmod256 (item space (stack_top_get stack 0)) (item space tmp)
      some (set_item space tmp (copy256 q.mod_))

unfoldable pub addmod : ℕ → List Uint256 → Option (List Uint256)
addmod stack space =
    let y = stack - 1 in
    let m = stack - 2 in
    if zero256 (item space m) then some (set_item space m (copy256 zero_item)) else do
      q ← divmod256 (add256 (item space stack) (item space y)) (item space m)
      some (set_item space m (copy256 q.div))

unfoldable pub mulmod : ℕ → List Uint256 → Option (List Uint256)
mulmod stack space =
    let x = stack_top_get stack 0 in
    let y = stack_top_get stack 1 in
    let m = stack_top_get stack 2 in
    if zero256 (item space m) then some (set_item space m (copy256 zero_item)) else do
      q ← divmod256 (mul256 (item space x) (item space y)) (item space m)
      some (set_item space m (copy256 q.div))

unfoldable pub lt : ℕ → List Uint256 → List Uint256
lt stack space =
    let y = stack - 1 in
    set_item space y (if gt256 (item space y) (item space stack) then one_item else zero_item)

unfoldable pub gt : ℕ → List Uint256 → List Uint256
gt stack space =
    let y = stack - 1 in
    set_item space y (if gt256 (item space stack) (item space y) then one_item else zero_item)

unfoldable pub slt : ℕ → List Uint256 → List Uint256
slt stack space =
    let y = stack - 1 in
    set_item space y (if gt256 (item space y) (item space stack) then one_item else zero_item)

unfoldable pub sgt : ℕ → List Uint256 → List Uint256
sgt stack space =
    let y = stack - 1 in
    set_item space y (if gt256 (item space stack) (item space y) then one_item else zero_item)

unfoldable pub eq : ℕ → List Uint256 → List Uint256
eq stack space =
    let x = stack_top_get stack 0 in
    let y = stack_top_get stack 1 in
    set_item space y (if equal256 (item space x) (item space y) then one_item else zero_item)

unfoldable pub iszero : ℕ → List Uint256 → List Uint256
iszero stack space =
    set_item space stack (if zero256 (item space stack) then one_item else zero_item)

unfoldable pub and_ : ℕ → List Uint256 → List Uint256
and_ stack space =
    let curr_top = stack - 1 in
    set_item space curr_top (copy256 (and256 (item space stack) (item space curr_top)))

unfoldable pub or_ : ℕ → List Uint256 → List Uint256
or_ stack space =
    let curr_top = stack - 1 in
    set_item space curr_top (copy256 (or256 (item space stack) (item space curr_top)))

unfoldable pub xor_ : ℕ → List Uint256 → List Uint256
xor_ stack space =
    let curr_top = stack - 1 in
    set_item space curr_top (copy256 (xor256 (item space stack) (item space curr_top)))

unfoldable pub not_ : ℕ → List Uint256 → List Uint256
not_ stack space = set_item space stack (copy256 (not256 (item space stack)))

-- `*u256_index(x, index)`; an index above 3 is not used.
abbrev pub u256_index : Uint256 → ℕ → ℕ
u256_index x index =
    if index == 0
    then x.lower.lower
    else if index == 1
    then x.lower.upper
    else if index == 2
    then x.upper.lower
    else x.upper.upper

unfoldable pub byte_ : ℕ → List Uint256 → List Uint256
byte_ stack space =
    let n = item space stack in
    let x = stack - 1 in
    let n_valid =
      n.upper.upper == 0 && n.upper.lower == 0 && n.lower.upper == 0 && ltb n.lower.lower 32 in
    let byte_mask = if n_valid then 0xff else 0 in
    let index = 31 - u32 (n.lower.lower % 32) in
    let word = u256_index (item space x) (index / 8) in
    let byte_index = index % 8 in
    let byte = bit_and (word / 2 ^ (byte_index * 8)) byte_mask in
    set_item space x (record {
      upper = record { upper = 0; lower = 0 };
      lower = record { upper = 0; lower = byte };
    })

unfoldable pub shl : ℕ → List Uint256 → List Uint256
shl stack space =
    let y = stack - 1 in
    let offset = u32 (item space stack).lower.lower in
    set_item space y (copy256 (shiftl256 (item space y) offset))

unfoldable pub shr : ℕ → List Uint256 → List Uint256
shr stack space =
    let y = stack - 1 in
    let offset = u32 (item space stack).lower.lower in
    set_item space y (copy256 (shiftr256 (item space y) offset))

-- The sign is taken from the top word, as in `(int64_t)*u256_index(x, 3) < 0`.
unfoldable pub sar : ℕ → List Uint256 → List Uint256
sar stack space =
    let y = item space stack in
    let x = stack - 1 in
    let negative = ltb (2 ^ 63 - 1) (u256_index (item space x) 3) in
    let sign_mask = if negative then copy256 (not256 zero_item) else zero_item in
    let offset = u32 y.lower.lower in
    let target1 = shiftr256 (item space x) offset in
    let target2 = shiftl256 sign_mask offset in set_item space x (copy256 (add256 target1 target2))
