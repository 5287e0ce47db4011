-- ===== src/Traits/Laws.antt =====
-- The stack effects in the table of instruction traits.
use tsc_vee.Base.{
  ℕ, ◌+◌, ◌-◌, ◌*◌, ◌<◌, ◌≡◌, refl, Bool, true, false, ◌&&◌, if◌then◌else◌, ◌==◌, ==_iff, Option,
  none, some, List, [], ◌∷◌, leb, arith, all_below, all_below_lem,
}
use tsc_vee.Base.Int.{pos, ◌-ℤ◌, eqb_ℤ, eqb_ℤ_lem}
use tsc_vee.Traits.{Traits, traits}

-- The instructions from `first` to `last` take and give items; each one after the first takes and gives
-- `more` items more than the one before.
pub record Range : Type 0 where
  pub first : ℕ
  pub last : ℕ
  pub takes : ℕ
  pub gives : ℕ
  pub more_taken : ℕ
  pub more_given : ℕ

abbrev span : ℕ → ℕ → ℕ → ℕ → Range
span first last takes gives = record {
  first = first;
  last = last;
  takes = takes;
  gives = gives;
  more_taken = 0;
  more_given = 0;
}

-- The stack items of the instructions as the Yellow Paper lists them, in the order of the opcodes.
abbrev ranges : List Range
ranges =
    span 0x00 0x00 0 0
    ∷ span 0x01 0x07 2 1
    ∷ span 0x08 0x09 3 1
    ∷ span 0x0a 0x0b 2 1
    ∷ span 0x10 0x14 2 1
    ∷ span 0x15 0x15 1 1
    ∷ span 0x16 0x18 2 1
    ∷ span 0x19 0x19 1 1
    ∷ span 0x1a 0x1d 2 1
    ∷ span 0x20 0x20 2 1
    ∷ span 0x30 0x30 0 1
    ∷ span 0x31 0x31 1 1
    ∷ span 0x32 0x34 0 1
    ∷ span 0x35 0x35 1 1
    ∷ span 0x36 0x36 0 1
    ∷ span 0x37 0x37 3 0
    ∷ span 0x38 0x38 0 1
    ∷ span 0x39 0x39 3 0
    ∷ span 0x3a 0x3a 0 1
    ∷ span 0x3b 0x3b 1 1
    ∷ span 0x3c 0x3c 4 0
    ∷ span 0x3d 0x3d 0 1
    ∷ span 0x3e 0x3e 3 0
    ∷ span 0x3f 0x40 1 1
    ∷ span 0x41 0x48 0 1
    ∷ span 0x50 0x50 1 0
    ∷ span 0x51 0x51 1 1
    ∷ span 0x52 0x53 2 0
    ∷ span 0x54 0x54 1 1
    ∷ span 0x55 0x55 2 0
    ∷ span 0x56 0x56 1 0
    ∷ span 0x57 0x57 2 0
    ∷ span 0x58 0x5a 0 1
    ∷ span 0x5b 0x5b 0 0
    ∷ span 0x5f 0x7f 0 1
    ∷ record { first = 0x80; last = 0x8f; takes = 1; gives = 2; more_taken = 1; more_given = 1 }
    ∷ record { first = 0x90; last = 0x9f; takes = 2; gives = 2; more_taken = 1; more_given = 1 }
    ∷ record { first = 0xa0; last = 0xa4; takes = 2; gives = 0; more_taken = 1; more_given = 0 }
    ∷ span 0xf0 0xf0 3 1
    ∷ span 0xf1 0xf2 7 1
    ∷ span 0xf3 0xf3 2 0
    ∷ span 0xf4 0xf4 6 1
    ∷ span 0xf5 0xf5 4 1
    ∷ span 0xfa 0xfa 6 1
    ∷ span 0xfd 0xfd 2 0
    ∷ span 0xfe 0xfe 0 0
    ∷ span 0xff 0xff 1 0
    ∷ []

-- The items that an instruction takes and those that it gives.
abbrev pub items_of : List Range → ℕ → Option (ℕ × ℕ)
items_of [] i = none
items_of (r ∷ rs) i =
    if leb r.first i && leb i r.last
    then some (r.takes + (i - r.first) * r.more_taken, r.gives + (i - r.first) * r.more_given)
    else items_of rs i

unfoldable pub stack_items : ℕ → Option (ℕ × ℕ)
stack_items i = items_of ranges i

-- The traits ask for the items taken, and change the height by the difference.
abbrev pub HasEffect : Option (ℕ × ℕ) → Option Traits → Type 0
HasEffect none none = Unit
HasEffect (some (takes, gives)) (some t) =
    (t.stack_height_required ≡ takes) × (t.stack_height_change ≡ pos gives -ℤ pos takes)
HasEffect items entry = ⊥

abbrev fits : Option (ℕ × ℕ) → Option Traits → Bool
fits none none = true
fits (some (takes, gives)) (some t) =
    (t.stack_height_required == takes) && eqb_ℤ t.stack_height_change (pos gives -ℤ pos takes)
fits items entry = false

all_fit : all_below 256 (λ i. fits (stack_items i) (traits i)) ≡ true
unfolding traits stack_items ◌-ℤ◌
all_fit = refl

both : (a b : Bool) → (a && b) ≡ true → (a ≡ true) × (b ≡ true)
both a b h = ground arith

fits-HasEffect :
    (items : Option (ℕ × ℕ)) (entry : Option Traits)
    → fits items entry ≡ true
    → HasEffect items entry
fits-HasEffect none none h = tt
fits-HasEffect (some (takes, gives)) (some t) h =
    let (a, b) = both (t.stack_height_required == takes) _ h in
    ((==_iff t.stack_height_required takes).0 a, eqb_ℤ_lem t.stack_height_change _ b)
fits-HasEffect none (some t) h = absurd (cc)
fits-HasEffect (some items) none h = absurd (cc)

-- For every opcode below 256, the table of traits has an entry exactly if a separate list of the
-- stack items of the instructions has one, and then requires as many items as the instruction
-- takes and changes the height by the items it gives less those.
pub traits-HasEffect : (i : ℕ) → i < 256 → HasEffect (stack_items i) (traits i)
traits-HasEffect i lt =
    fits-HasEffect (stack_items i) (traits i)
      (all_below_lem 256 (λ j. fits (stack_items j) (traits j)) all_fit i lt)
