-- ===== src/Protocol/Version/Support.antt =====
-- About isSupportedEspFirmwareVersion: which texts pass.
use aquarium_controller.Prelude.{
  ℕ, zero, suc, ◌+◌, ◌-◌, ◌*◌, ◌≤◌, ◌<◌, ◌≡◌, ◌↔◌, refl, ap, ◌∙◌, inl, inr, true, ◌&&◌, [], ◌∷◌,
  ◌++◌, arith, Bool-cases, &&-eq-true, ==_iff, Text, split, ◌==◌, if◌then◌else◌,
}
use mathlib.Core.List.{append_assoc}
use aquarium_controller.Protocol.Version.{
  all_digits, is_digits, decimal_from, decimal, head_or_empty, is_supported_esp_firmware_version,
}

-- Nothing, or a dot and anything
abbrev pub IsTail : Text → Type 0
IsTail [] = Unit {0}
IsTail (c ∷ cs) = c ≡ b'.'

abbrev pub zeros : ℕ → Text
zeros zero = []
zeros (suc n) = b'0' ∷ zeros n

-- 6, 6.x, 06.x and so on: zeros, the digit 6, and the end or a dot
abbrev pub IsSixth : Text → Type 0
IsSixth version = (n : ℕ) × (rest : Text) × (version ≡ zeros n ++ (b'6' ∷ rest)) × IsTail rest

-- The text up to the first dot
abbrev before_dot : Text → Text
before_dot [] = []
before_dot (c ∷ cs) = if c == b'.' then [] else c ∷ before_dot cs

head-split : (s : Text) → head_or_empty (split b'.' s) ≡ before_dot s
unfolding split
head-split [] = refl
head-split (c ∷ cs) = ground (arith, head-split cs)

from_dot : (s : Text) → (rest : Text) × (s ≡ before_dot s ++ rest) × IsTail rest
from_dot [] = ([], refl, tt)
from_dot (c ∷ cs) = elim (Bool-cases (c == b'.')) [
  | inl e ↦ (c ∷ cs, rw e, ground arith)
  | inr e ↦ let (rest, h, t) = from_dot cs in (rest, rw e (ap (◌∷◌ c) h), t)
]

before_dot-sixth :
    (n : ℕ) (rest : Text)
    → IsTail rest
    → before_dot (zeros n ++ (b'6' ∷ rest)) ≡ zeros n ++ (b'6' ∷ [])
before_dot-sixth zero [] t = refl
before_dot-sixth zero (c ∷ rest) t = ground arith
before_dot-sixth (suc n) rest t = ap (◌∷◌ b'0') (before_dot-sixth n rest t)

le-decimal_from : (acc : ℕ) (s : Text) → acc ≤ decimal_from acc s
unfolding decimal_from
le-decimal_from acc [] = omega arith
le-decimal_from acc (c ∷ cs) = omega (arith, le-decimal_from (acc * 10 + (c - b'0')) cs)

decimal_from-pos : (acc : ℕ) (s : Text) → 0 < acc → decimal_from acc s ≡ 6 → (acc ≡ 6) × (s ≡ [])
unfolding decimal_from
decimal_from-pos acc [] h e = (e, refl)
decimal_from-pos acc (c ∷ cs) h e =
    absurd (omega (arith, le-decimal_from (acc * 10 + (c - b'0')) cs))

sixth_of_decimal :
    (s : Text) → all_digits s ≡ true → decimal_from 0 s ≡ 6 → (n : ℕ) × (s ≡ zeros n ++ (b'6' ∷ []))
unfolding all_digits decimal_from
sixth_of_decimal [] d e = absurd (omega arith)
sixth_of_decimal (c ∷ cs) d e = elim (Bool-cases (c == b'0')) [
  | inl z ↦
      let same : c ≡ b'0' = ground arith in
      let (n, h) = sixth_of_decimal cs (ground arith) (rw same at e) in (suc n, rw (same, h))
  | inr z ↦
      let (six, end) = decimal_from-pos (0 * 10 + (c - b'0')) cs (ground arith) e in
      (0, rw end (ap (λ x. x ∷ []) (ground arith)))
]

decimal-sixth :
    (n : ℕ)
    → (all_digits (zeros n ++ (b'6' ∷ [])) ≡ true) × (decimal_from 0 (zeros n ++ (b'6' ∷ [])) ≡ 6)
unfolding all_digits decimal_from
decimal-sixth zero = (refl, refl)
decimal-sixth (suc n) = decimal-sixth n

is_digits-sixth : (n : ℕ) → is_digits (zeros n ++ (b'6' ∷ [])) ≡ true
unfolding is_digits
is_digits-sixth zero = refl
is_digits-sixth (suc n) = (decimal-sixth (suc n)).0

all_digits-is_digits : (s : Text) → is_digits s ≡ true → all_digits s ≡ true
unfolding is_digits
all_digits-is_digits [] h = refl
all_digits-is_digits (c ∷ cs) h = h

sixth_of_major :
    (major : Text)
    → (is_digits major && decimal major == 6) ≡ true
    → (n : ℕ) × (major ≡ zeros n ++ (b'6' ∷ []))
unfolding decimal
sixth_of_major major h =
    let (d, e) = &&-eq-true (is_digits major) (decimal_from 0 major == 6) h in
    sixth_of_decimal major (all_digits-is_digits major d) ((==_iff _ 6).0 e)

-- A firmware version is supported exactly if its text up to the first dot, or to the end, is the digit 6
-- behind any number of zeros: 6, 6.0.3 and 06.1 are, 60.1 and 7 are not.
pub is_supported_esp_firmware_version_iff :
    (version : Text) → (is_supported_esp_firmware_version version ≡ true) ↔ IsSixth version
unfolding is_supported_esp_firmware_version
is_supported_esp_firmware_version_iff version = (to, from)
  where
    to : is_supported_esp_firmware_version version ≡ true → IsSixth version
    to h =
        let (rest, whole, tail) = from_dot version in
        let (n, e) = sixth_of_major (before_dot version) (rw (head-split version) at h) in
        (n, rest, whole ∙ ap (λ x. x ++ rest) e ∙ append_assoc (zeros n) (b'6' ∷ []) rest, tail)

    from : IsSixth version → is_supported_esp_firmware_version version ≡ true
    from (n, rest, e, t) =
        rw (head-split version, e, before_dot-sixth n rest t, is_digits-sixth n)
          (unfold decimal in rw ((decimal-sixth n).1))
