-- ===== src/Stack.antt =====
-- The stack of the interpreter: `struct StackSpace` of include/execution_state.h, `struct StackTop`
-- of include/instructions.h and `struct Stack` of include/analysis.h. A pointer to an item is its
-- distance from `m_bottom`, which is one below the space: pointer `p` is the item of index `p - 1`,
-- and the top pointer is the number of items.
pub mod Laws
use tsc_vee.Base.{ℕ, zero, suc, ◌+◌, ◌-◌, List, [], ◌∷◌, get_or, set, none, some, map}
use tsc_vee.Base.Int.{ℤ, pos, negsuc}
use tsc_vee.Uint256.{Uint256}
use tsc_vee.Uint256.Value.{value256}
use tsc_vee.Traits.{traits}

abbrev pub zero_item : Uint256
zero_item = record {
  upper = record { upper = 0; lower = 0 };
  lower = record { upper = 0; lower = 0 };
}

abbrev pub one_item : Uint256
one_item = record {
  upper = record { upper = 0; lower = 0 };
  lower = record { upper = 0; lower = 1 };
}

-- `*p`
abbrev pub item : List Uint256 → ℕ → Uint256
item space p = get_or space (p - 1) zero_item

-- `*p = value`
abbrev pub set_item : List Uint256 → ℕ → Uint256 → List Uint256
set_item space p value = set space (p - 1) value

-- The pointer to the item `index` places below.
abbrev pub stack_top_get : ℕ → ℕ → ℕ
stack_top_get m_top index = m_top - index

-- `*(++m_top) = value`: the space after it.
abbrev pub stack_top_push : ℕ → List Uint256 → Uint256 → List Uint256
stack_top_push m_top space value = set_item space (m_top + 1) value

pub record Stack : Type 0 where
  pub space : List Uint256
  pub top_item : ℕ

abbrev pub stack_reset : List Uint256 → Stack
stack_reset space = record { space = space; top_item = 0 }

abbrev pub stack_size : Stack → ℕ
stack_size s = s.top_item

abbrev pub stack_get : Stack → ℕ → Uint256
stack_get s index = item s.space (s.top_item - index)

abbrev pub stack_push : Stack → Uint256 → Stack
stack_push s value = record {
  space = set_item s.space (s.top_item + 1) value;
  top_item = s.top_item + 1;
}

abbrev pub stack_pop : Stack → Uint256 × Stack
stack_pop s = (item s.space s.top_item, record { space = s.space; top_item = s.top_item - 1 })

-- `p += change`
abbrev pub move : ℕ → ℤ → ℕ
move p (pos n) = p + n
move p (negsuc n) = p - suc n

abbrev pub height_change : ℕ → ℤ
height_change opcode = elim (traits opcode) [ none ↦ pos 0 | some t ↦ t.stack_height_change ]

-- What the stack holds, the top item first.
abbrev pub items : List Uint256 → ℕ → List Uint256
items space zero = []
items space (suc n) = get_or space n zero_item ∷ items space n

abbrev pub values : Stack → List ℕ
values s = map value256 (items s.space s.top_item)
