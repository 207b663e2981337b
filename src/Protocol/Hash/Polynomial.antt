-- ===== src/Protocol/Hash/Polynomial.antt =====
-- About unsignedDjb2, as arithmetic without machine words.
use aquarium_controller.Prelude.{
  ℕ, ◌+◌, ◌*◌, ◌%◌, ◌^◌, ◌<◌, ◌≡◌, ◌∙◌, ap, sym, List, [], ◌∷◌, arith, length, Text,
}
use aquarium_controller.Protocol.Hash.{u32_mod, djb2_step, djb2_loop, djb2_seed, unsigned_djb2}
use native.Mathlib.Nat.{mod-add-div', pow-succ'}

-- byte 0 times 33^(n-1), and so on down to byte n-1 times 1
abbrev pub polynomial : List ℕ → ℕ
polynomial [] = 0
polynomial (b ∷ rest) = b * 33 ^ length rest + polynomial rest

-- The signed 32-bit product and sum come to the unsigned ones.
djb2_step_lem : (h b : ℕ) → djb2_step h b ≡ (h * 33 + b) % u32_mod
unfolding djb2_step
djb2_step_lem h b = ground arith

mod_into : (x k w : ℕ) → (x % u32_mod * k + w) % u32_mod ≡ (x * k + w) % u32_mod
mod_into x k w = omega (arith, ap (λ (t : ℕ). t * k) (mod-add-div' x u32_mod))

regroup : (h b k w : ℕ) → (h * 33 + b) * k + w ≡ h * (33 * k) + (b * k + w)
regroup h b k w = omega arith

djb2_loop-polynomial :
    (h : ℕ) (bytes : List ℕ)
    → h < u32_mod
    → djb2_loop h bytes ≡ (h * 33 ^ length bytes + polynomial bytes) % u32_mod
unfolding djb2_loop
djb2_loop-polynomial h [] lt = omega arith
djb2_loop-polynomial h (b ∷ rest) lt = rw djb2_step_lem (
    djb2_loop-polynomial ((h * 33 + b) % u32_mod) rest (omega arith)
    ∙ mod_into (h * 33 + b) (33 ^ length rest) (polynomial rest)
    ∙ ap (λ t. t % u32_mod)
        (regroup h b (33 ^ length rest) (polynomial rest)
          ∙ ap (λ t. h * t + (b * 33 ^ length rest + polynomial rest))
              (sym (pow-succ' 33 (length rest)))))

-- Of the bytes that the encoder gives, the hash is 5381 * 33^n + byte(0) * 33^(n-1) + ... + byte(n-1)
-- modulo 2^32, though each of its steps is signed 32-bit arithmetic; so it is below 2^32.
pub unsigned_djb2-polynomial :
    (encode : Text → List ℕ) (value : Text)
    → let bytes = encode value in
      (unsigned_djb2 encode value ≡ (djb2_seed * 33 ^ length bytes + polynomial bytes) % u32_mod)
      × (unsigned_djb2 encode value < u32_mod)
unfolding unsigned_djb2
unsigned_djb2-polynomial encode value =
    let e = djb2_loop-polynomial djb2_seed (encode value) (omega arith) in (e, omega (arith, e))
