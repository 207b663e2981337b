-- ===== src/Scheduling/Overlay/Keys.antt =====
-- About the keys of applyManualOverrideOverlays: two texts joined by a unit 0 are told apart, if the second has no
-- unit 0.
use aquarium_controller.Prelude.{
  ℕ, zero, suc, ◌+◌, ◌-◌, ◌*◌, ◌/◌, ◌%◌, ◌<◌, ◌≡◌, refl, sym, ap, ◌∙◌, inl, inr, Bool, true, false,
  not, ◌&&◌, [], ◌∷◌, ◌++◌, ltb, ◌==◌, arith, Bool-cases, Text, text_eq, text_eq_sound,
  text_eq_refl,
}
use aquarium_controller.Protocol.ScheduleDocument.{decimal_text, digits_from}
use aquarium_controller.Scheduling.Overlay.{key}

-- Has the text no unit 0?
abbrev pub no_zero : Text → Bool
no_zero [] = true
no_zero (c ∷ rest) = not (c == 0) && no_zero rest

no_zero_ne : (m d n : Text) → no_zero m ≡ true → text_eq m (d ++ (0 ∷ n)) ≡ false
unfolding text_eq
no_zero_ne [] [] n h = refl
no_zero_ne [] (c ∷ d) n h = refl
no_zero_ne (b ∷ m) [] n h = ground arith
no_zero_ne (b ∷ m) (c ∷ d) n h = ground (arith, no_zero_ne m d n)

ne_no_zero : (m d n : Text) → no_zero m ≡ true → text_eq (d ++ (0 ∷ n)) m ≡ false
unfolding text_eq
ne_no_zero [] [] n h = refl
ne_no_zero [] (c ∷ d) n h = refl
ne_no_zero (b ∷ m) [] n h = ground arith
ne_no_zero (b ∷ m) (c ∷ d) n h = ground (arith, ne_no_zero m d n)

pub text_eq-key :
    (d e m n : Text)
    → no_zero m ≡ true
    → no_zero n ≡ true
    → text_eq (key d m) (key e n) ≡ (text_eq d e && text_eq m n)
unfolding text_eq key
text_eq-key [] [] m n p q = refl
text_eq-key [] (c ∷ e) m n p q = ground (arith, no_zero_ne m e n p)
text_eq-key (b ∷ d) [] m n p q = ground (arith, ne_no_zero n d m q)
text_eq-key (b ∷ d) (c ∷ e) m n p q = ground (arith, text_eq-key d e m n p q)

-- The number that the digits stand for, after those that are read
value : ℕ → Text → ℕ
value v [] = v
value v (c ∷ rest) = value (v * 10 + (c - 48)) rest

value-digits_from :
    (fuel n : ℕ) (acc : Text) → n < fuel → value 0 (digits_from fuel n acc) ≡ value n acc
unfolding digits_from value
value-digits_from zero n acc h = absurd (omega arith)
value-digits_from (suc fuel) n acc h = elim (Bool-cases (ltb n 10)) [
  | inl small ↦ rw small (ap (λ v. value v acc) (omega arith))
  | inr large ↦
      rw (large, value-digits_from fuel (n / 10) ((48 + n % 10) ∷ acc) (ground arith))
        (ap (λ v. value v acc) (omega arith))
]

no_zero-digits_from :
    (fuel n : ℕ) (acc : Text) → no_zero acc ≡ true → no_zero (digits_from fuel n acc) ≡ true
unfolding digits_from
no_zero-digits_from zero n acc h = h
no_zero-digits_from (suc fuel) n acc h =
    ground (arith, no_zero-digits_from fuel (n / 10) ((48 + n % 10) ∷ acc))

decimal_text-injective : (p q : ℕ) → decimal_text p ≡ decimal_text q → p ≡ q
unfolding decimal_text value
decimal_text-injective p q h =
    sym (value-digits_from (suc p) p [] (omega arith))
    ∙ (ap (value 0) h ∙ value-digits_from (suc q) q [] (omega arith))

text_eq-decimal_text : (p q : ℕ) → text_eq (decimal_text p) (decimal_text q) ≡ (p == q)
text_eq-decimal_text p q = elim (Bool-cases (p == q)) [
  | inl same ↦ let e : p ≡ q = ground arith in rw (same, e) (text_eq_refl (decimal_text q))
  | inr other ↦ elim (Bool-cases (text_eq (decimal_text p) (decimal_text q))) [
    | inl texts ↦
        let e =
          decimal_text-injective p q (text_eq_sound (decimal_text p) (decimal_text q) texts) in
        absurd (ground arith)
    | inr texts ↦ rw (texts, other) refl
  ]
]

pub text_eq-pin_key :
    (d e : Text) (p q : ℕ)
    → text_eq (key d (decimal_text p)) (key e (decimal_text q)) ≡ (text_eq d e && p == q)
text_eq-pin_key d e p q =
    rw
      (
        text_eq-key d e (decimal_text p) (decimal_text q)
            (unfold decimal_text in no_zero-digits_from (suc p) p [] refl)
            (unfold decimal_text in no_zero-digits_from (suc q) q [] refl),
        text_eq-decimal_text p q,
      )
      refl
