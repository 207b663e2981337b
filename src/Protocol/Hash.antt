-- ===== src/Protocol/Hash.antt =====
-- packages/esp-protocol/src/schedule.ts: unsignedDjb2. The platform's UTF-8 encoder is a parameter.
pub mod Polynomial
use aquarium_controller.Prelude.{
  ℕ, ◌+◌, ◌-◌, ◌*◌, ◌%◌, ◌^◌, List, [], ◌∷◌, if◌then◌else◌, ltb, Text,
}
use aquarium_controller.Prelude.Int.{ℤ, pos, negsuc, ◌+ℤ◌}

abbrev pub u32_mod : ℕ
u32_mod = 2 ^ 32

-- Math.imul: the low 32 bits of the product, as a signed integer
pub imul : ℕ → ℕ → ℤ
imul a b =
    let low = a * b % u32_mod in if ltb low (2 ^ 31) then pos low else negsuc (u32_mod - low - 1)

-- `x >>> 0`
pub to_uint32 : ℤ → ℕ
to_uint32 (pos n) = n % u32_mod
to_uint32 (negsuc n) = u32_mod - 1 - n % u32_mod

unfoldable pub djb2_step : ℕ → ℕ → ℕ
unfolding imul to_uint32 ◌+ℤ◌
djb2_step hash byte = to_uint32 (imul hash 33 +ℤ pos byte)

unfoldable pub djb2_loop : ℕ → List ℕ → ℕ
unfolding djb2_step
djb2_loop hash [] = hash
djb2_loop hash (byte ∷ rest) = djb2_loop (djb2_step hash byte) rest

abbrev pub djb2_seed : ℕ
djb2_seed = 5381

unfoldable pub unsigned_djb2 : (Text → List ℕ) → Text → ℕ
unfolding djb2_loop
unsigned_djb2 encode value = djb2_loop djb2_seed (encode value)
