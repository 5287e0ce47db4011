-- ===== src/Bytes/Tests.antt =====
-- The theorems of the byte forms at concrete buffers.
use tsc_vee.Base.{ℕ, zero, suc, ◌≡◌, List, [], ◌∷◌, replicate, arith}
use tsc_vee.Uint256.Tests.{big, big-IsWord}
use tsc_vee.Bytes.{readu256_be, u256_to_u8_32}
use tsc_vee.Bytes.Laws.{AreBytes, readu256_be-u256_to_u8_32}

abbrev buffer : List ℕ
buffer = 1 ∷ 2 ∷ 3 ∷ 4 ∷ 5 ∷ 6 ∷ 7 ∷ 255 ∷ []

zeros-AreBytes : (n : ℕ) → AreBytes (replicate n 0)
zeros-AreBytes zero i = omega arith
zeros-AreBytes (suc n) zero = omega arith
zeros-AreBytes (suc n) (suc i) = zeros-AreBytes n i

buffer-AreBytes : AreBytes buffer
buffer-AreBytes zero = omega arith
buffer-AreBytes (suc zero) = omega arith
buffer-AreBytes (suc (suc zero)) = omega arith
buffer-AreBytes (suc (suc (suc zero))) = omega arith
buffer-AreBytes (suc (suc (suc (suc zero)))) = omega arith
buffer-AreBytes (suc (suc (suc (suc (suc zero))))) = omega arith
buffer-AreBytes (suc (suc (suc (suc (suc (suc zero)))))) = omega arith
buffer-AreBytes (suc (suc (suc (suc (suc (suc (suc zero))))))) = omega arith
buffer-AreBytes (suc (suc (suc (suc (suc (suc (suc (suc i)))))))) = omega arith

readu256_be-u256_to_u8_32_example : readu256_be (u256_to_u8_32 big (replicate 32 0)) ≡ big
readu256_be-u256_to_u8_32_example =
    readu256_be-u256_to_u8_32 big (replicate 32 0) (omega arith) (zeros-AreBytes 32) big-IsWord
