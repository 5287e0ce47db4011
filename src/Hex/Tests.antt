-- ===== src/Hex/Tests.antt =====
-- Two bytes as a string and back.
use tsc_vee.Base.{ℕ, zero, suc, ◌≡◌, refl, List, [], ◌∷◌, replicate, some, arith}
use tsc_vee.Bytes.{byte_at}
use tsc_vee.Bytes.Laws.{AreBytes}
use tsc_vee.Hex.{from_hex, hex}
use tsc_vee.Hex.Laws.{from_hex-hex}

abbrev two : List ℕ
two = 0x5b ∷ 0xf0 ∷ []

two-AreBytes : AreBytes two
two-AreBytes zero = omega arith
two-AreBytes (suc zero) = omega arith
two-AreBytes (suc (suc i)) = omega arith

from_hex-hex_example :
    (text : List ℕ) × (hex two 2 (replicate 7 0) ≡ some text)
    × (new : List ℕ) × (from_hex text (replicate 4 0) ≡ some new)
    × (byte_at new 1 ≡ 0xf0)
from_hex-hex_example =
    from_hex-hex two two-AreBytes 2 (replicate 7 0) (omega arith) refl (omega arith) (replicate 4 0)
      1 (omega arith) (omega arith)
