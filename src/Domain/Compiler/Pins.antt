-- ===== src/Domain/Compiler/Pins.antt =====
-- About compileFirmwareSchedule: its pins and its links.
use aquarium_controller.Prelude.{
  ℕ, ◌/◌, ◌≤◌, ◌≡◌, ◌≢◌, sym, ap, subst, ◌∙◌, true, not, List, [], ◌∷◌, map, arith,
}
use aquarium_controller.Prelude.Result.{ok, guard, guard-eq-ok, map_result, >>=-eq-ok}
use aquarium_controller.Prelude.Int.{ℤ, pos, negsuc}
use aquarium_controller.Number.{Number, nan, infinite, finite, num, unit, is_integer, lt, eq-num}
use aquarium_controller.Domain.Schedule.{ScheduleSegment}
use aquarium_controller.Domain.Evaluation.{Arithmetic}
use aquarium_controller.Domain.Pwm.{round_half_even, whole}
use aquarium_controller.Domain.Pwm.Rounding.{round_half_even-IsNearest}
use aquarium_controller.Domain.Compiler.{
  FirmwareScheduleChannelInput, CompiledFirmwareChannel, CompiledFirmwareLink, has_pin,
  pin_accepted, within, compile_segment, compile_channel, compile_channels,
  compile_firmware_schedule,
}

-- The pins are whole numbers from 0 to 63, none of them one of `seen`, and no two alike.
abbrev pub Fresh : ℕ → List ℕ → Type 0
Fresh pin [] = Unit {0}
Fresh pin (p ∷ rest) = (p ≢ pin) × Fresh pin rest

abbrev pub Distinct : List ℕ → List Number → Type 0
Distinct pins [] = Unit {0}
Distinct pins (x ∷ rest) =
    (n : ℕ) × (x ≡ num n) × (n ≤ 63) × Fresh n pins × Distinct (n ∷ pins) rest

-- The link has the minutes of the segment, and its percents are whole.
abbrev pub Rounds : ScheduleSegment → CompiledFirmwareLink → Type 0
Rounds s l =
    (l.source.minute ≡ s.source.minute)
    × (l.target.minute ≡ s.target.minute)
    × ((p : ℤ) × (l.source.percent ≡ whole p))
    × ((q : ℤ) × (l.target.percent ≡ whole q))

abbrev pub AllRound : List ScheduleSegment → List CompiledFirmwareLink → Type 0
AllRound [] [] = Unit {0}
AllRound (s ∷ ss) (l ∷ ls) = Rounds s l × AllRound ss ls
AllRound [] (l ∷ ls) = ⊥
AllRound (s ∷ ss) [] = ⊥

abbrev pub Keeps : List FirmwareScheduleChannelInput → List CompiledFirmwareChannel → Type 0
Keeps [] [] = Unit {0}
Keeps (c ∷ cs) (d ∷ ds) =
    (d.pin ≡ c.pin) × (d.kind ≡ c.kind) × AllRound c.graph.segments d.links × Keeps cs ds
Keeps [] (d ∷ ds) = ⊥
Keeps (c ∷ cs) [] = ⊥

pin_of_accepted : (x : Number) → pin_accepted x ≡ true → (n : ℕ) × (x ≡ num n) × (n ≤ 63)
unfolding is_integer lt
pin_of_accepted (finite (pos k)) h = (k / unit, ground arith, ground arith)
pin_of_accepted (finite (negsuc k)) h = absurd (ground arith)
pin_of_accepted nan h = absurd (cc)
pin_of_accepted (infinite sign) h = absurd (cc)

Fresh-of_has_pin :
    (n : ℕ) (pins : List ℕ) → not (has_pin (map num pins) (num n)) ≡ true → Fresh n pins
unfolding has_pin
Fresh-of_has_pin n [] h = tt
Fresh-of_has_pin n (p ∷ rest) h = ground (arith, eq-num p n, Fresh-of_has_pin n rest)

ok-injective {ℓ} : {A : Type ℓ} {a b : A} → ok a ≡ ok b → a ≡ b
ok-injective h = cc

whole_of_round : (x : Number) {y : Number} → round_half_even x ≡ ok y → (z : ℤ) × (y ≡ whole z)
whole_of_round (finite k) h =
    let (r, e, _) = round_half_even-IsNearest k in (r, ok-injective (sym h ∙ e))
whole_of_round nan h = absurd (unfold round_half_even in cc)
whole_of_round (infinite sign) h = absurd (unfold round_half_even in cc)

module _ (js : Arithmetic) where
  open js use {mul, div}

  compile_segment-Rounds :
      (t g : Number) (s : ScheduleSegment) {l : CompiledFirmwareLink}
      → compile_segment js t g s ≡ ok l
      → Rounds s l
  unfolding compile_segment
  compile_segment-Rounds t g s h =
      let (p, ep, h') =
        >>=-eq-ok (round_half_even (mul (mul s.source.percent (div t (num 100))) g)) _ h in
      let (q, eq', e) =
        >>=-eq-ok (round_half_even (mul (mul s.target.percent (div t (num 100))) g)) _ h' in
      let l = ok-injective e in
      let (a, ea) = whole_of_round _ ep in
      let (b, eb) = whole_of_round _ eq' in
      (
        ap (λ x. x.source.minute) (sym l),
        ap (λ x. x.target.minute) (sym l),
        (a, ap (λ x. x.source.percent) (sym l) ∙ ea),
        (b, ap (λ x. x.target.percent) (sym l) ∙ eb),
      )

  map_result-AllRound :
      (t g : Number) (ss : List ScheduleSegment) {ls : List CompiledFirmwareLink}
      → map_result (compile_segment js t g) ss ≡ ok ls
      → AllRound ss ls
  unfolding map_result
  map_result-AllRound t g [] {ls} h = subst (AllRound []) (ok-injective h) tt
  map_result-AllRound t g (s ∷ ss) {ls} h =
      let (l, el, h') = >>=-eq-ok (compile_segment js t g s) _ h in
      let (rest, er, e) = >>=-eq-ok (map_result (compile_segment js t g) ss) _ h' in
      subst (AllRound (s ∷ ss)) (ok-injective e)
        (compile_segment-Rounds t g s el, map_result-AllRound t g ss er)

  compile_channel-keeps :
      (pins : List Number) (c : FirmwareScheduleChannelInput) {d : CompiledFirmwareChannel}
      → compile_channel js pins c ≡ ok d
      → (pin_accepted c.pin ≡ true)
        × (not (has_pin pins c.pin) ≡ true)
        × (d.pin ≡ c.pin)
        × (d.kind ≡ c.kind)
        × AllRound c.graph.segments d.links
  unfolding compile_channel
  compile_channel-keeps pins c h =
      let (_, a, ha) = >>=-eq-ok (guard (pin_accepted c.pin) _) _ h in
      let (_, b, hb) = >>=-eq-ok (guard (not (has_pin pins c.pin)) _) _ ha in
      let (_, _, h₃) = >>=-eq-ok (guard (within c.throttle_percent 100) _) _ hb in
      let (_, _, h₄) = >>=-eq-ok (guard (within c.output_gain 1) _) _ h₃ in
      let (ls, el, e) =
        >>=-eq-ok
          (map_result (compile_segment js c.throttle_percent c.output_gain) c.graph.segments) _
          h₄ in
      let d = ok-injective e in
      (
        guard-eq-ok _ _ a,
        guard-eq-ok _ _ b,
        ap (λ x. x.pin) (sym d),
        ap (λ x. x.kind) (sym d),
        subst (λ x. AllRound c.graph.segments x.links) d (map_result-AllRound _ _ _ el),
      )

  compile_channels-Keeps :
      (pins : List ℕ) (cs : List FirmwareScheduleChannelInput) {ds : List CompiledFirmwareChannel}
      → compile_channels js (map num pins) cs ≡ ok ds
      → Distinct pins (map (λ c. c.pin) cs) × Keeps cs ds
  unfolding compile_channels
  compile_channels-Keeps pins [] {ds} h = (tt, subst (Keeps []) (ok-injective h) tt)
  compile_channels-Keeps pins (c ∷ cs) {ds} h =
      let (d, ed, h') = >>=-eq-ok (compile_channel js (map num pins) c) _ h in
      let (rest, er, e) = >>=-eq-ok (compile_channels js (c.pin ∷ map num pins) cs) _ h' in
      let (a, b, ep, ek, r) = compile_channel-keeps (map num pins) c ed in
      let (n, en, hn) = pin_of_accepted c.pin a in
      let (dist, keeps) =
        compile_channels-Keeps (n ∷ pins) cs
          (subst (λ x. compile_channels js (x ∷ map num pins) cs ≡ ok rest) en er) in
      (
        (
          n,
          en,
          hn,
          Fresh-of_has_pin n pins (subst (λ x. not (has_pin (map num pins) x) ≡ true) en b),
          dist,
        ),
        subst (Keeps (c ∷ cs)) (ok-injective e) (ep, ek, r, keeps),
      )

  -- If `compileFirmwareSchedule` returns, the pins of the channels are distinct whole numbers from 0 to
  -- 63, and there is one compiled channel for each channel, in order, of the same pin and kind, with one
  -- link for each segment, in order, of the same minutes and with whole percents.
  pub compile_firmware_schedule-Keeps :
      (channels : List FirmwareScheduleChannelInput) {compiled : List CompiledFirmwareChannel}
      → compile_firmware_schedule js channels ≡ ok compiled
      → Distinct [] (map (λ c. c.pin) channels) × Keeps channels compiled
  unfolding compile_firmware_schedule
  compile_firmware_schedule-Keeps channels h = compile_channels-Keeps [] channels h
