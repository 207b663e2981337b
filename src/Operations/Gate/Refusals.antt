-- ===== src/Operations/Gate/Refusals.antt =====
-- About the gate of the operation service: whom it turns away.
use aquarium_controller.Prelude.{
  ℕ, ◌<◌, ◌≡◌, refl, Bool, true, false, not, ◌||◌, List, [], ◌∷◌, Option, none, some, arith, ltb,
  Text, text_eq, text_eq_refl, text_eq_sound, Bool-cases, inl, inr,
}
use aquarium_controller.Operations.Lifecycle.{device_command_in_flight, CancelledReason}
use aquarium_controller.Operations.Attempt.{unchanged, cleared, until}
use aquarium_controller.Operations.Gate.{
  Gates, is_active, remove, reserve_device_attempt, conclude, Event, asked, concluded, released,
  signalled, run,
}

is_active-remove :
    (x id : Text) (xs : List Text)
    → text_eq x id ≡ false
    → is_active (remove x xs) id ≡ is_active xs id
unfolding is_active remove
is_active-remove x id [] h = refl
is_active-remove x id (y ∷ rest) h = elim (Bool-cases (text_eq y x)) [
  | inl e ↦
      let same : y ≡ x = text_eq_sound y x e in
      let apart : text_eq y id ≡ false = rw same h in rw (e, apart) (is_active-remove x id rest h)
  | inr e ↦ rw e (ground (arith, is_active-remove x id rest h))
]

-- The events do not release the device.
abbrev pub Unreleased : Text → List Event → Type 0
Unreleased id [] = Unit {0}
Unreleased id (released x ∷ rest) = (text_eq x id ≡ false) × Unreleased id rest
Unreleased id (e ∷ rest) = Unreleased id rest

reserve-is_active :
    (x id : Text) (at : ℕ) (g : Gates)
    → is_active g.active id ≡ true
    → is_active (reserve_device_attempt x at g).1.active id ≡ true
unfolding reserve_device_attempt
reserve-is_active x id at g h = ground arith

run-is_active :
    (id : Text) (es : List Event) (g : Gates)
    → Unreleased id es
    → is_active g.active id ≡ true
    → is_active (run g es).active id ≡ true
unfolding run
run-is_active id [] g u h = h
run-is_active id (asked x at ∷ rest) g u h =
    run-is_active id rest _ u (reserve-is_active x id at g h)
run-is_active id (concluded x unchanged ∷ rest) g u h = run-is_active id rest _ u h
run-is_active id (concluded x cleared ∷ rest) g u h = run-is_active id rest _ u h
run-is_active id (concluded x (until t) ∷ rest) g u h = run-is_active id rest _ u h
run-is_active id (released x ∷ rest) g u h =
    run-is_active id rest _ u.1 (rw (is_active-remove x id g.active u.0) h)
run-is_active id (signalled x ∷ rest) g u h = run-is_active id rest _ u h

held :
    (id : Text) (at : ℕ) (g : Gates)
    → (reserve_device_attempt id at g).0 ≡ none
    → is_active (reserve_device_attempt id at g).1.active id ≡ true
unfolding reserve_device_attempt
held id at g f = ground (arith, text_eq_refl id)

turned_away :
    (id : Text) (at : ℕ) {g : Gates}
    → is_active g.active id ≡ true
    → reserve_device_attempt id at g ≡ (some device_command_in_flight, g)
unfolding reserve_device_attempt
turned_away id at h = rw h refl

-- Once an attempt for a device has been let through, each further operation of that device is turned away
-- as in flight, and changes nothing, as long as the attempt has not released the device.
pub reserve_device_attempt-excludes :
    (id : Text) (at then_at : ℕ) (g : Gates) (es : List Event)
    → (reserve_device_attempt id at g).0 ≡ none
    → Unreleased id es
    → let later = run (reserve_device_attempt id at g).1 es in
      reserve_device_attempt id then_at later ≡ (some device_command_in_flight, later)
reserve_device_attempt-excludes id at then_at g es free u =
    turned_away id then_at (run-is_active id es _ u (held id at g free))

-- The events ask nothing of the device at `t` or later, record no outcome of it and do not report it
-- available.
abbrev pub Quiet : Text → ℕ → List Event → Type 0
Quiet id t [] = Unit {0}
Quiet id t (asked x at ∷ rest) = ((not (text_eq x id) || ltb at t) ≡ true) × Quiet id t rest
Quiet id t (concluded x c ∷ rest) = (text_eq x id ≡ false) × Quiet id t rest
Quiet id t (signalled x ∷ rest) = (text_eq x id ≡ false) × Quiet id t rest
Quiet id t (released x ∷ rest) = Quiet id t rest

reserve-cooldown :
    (x id : Text) (at t : ℕ) (g : Gates)
    → (not (text_eq x id) || ltb at t) ≡ true
    → g.cooldown_until id ≡ some t
    → (reserve_device_attempt x at g).1.cooldown_until id ≡ some t
unfolding reserve_device_attempt
reserve-cooldown x id at t g q h = elim (Bool-cases (text_eq x id)) [
  | inl e ↦ let same : x ≡ id = text_eq_sound x id e in rw same (ground arith)
  | inr e ↦ ground arith
]

run-cooldown :
    (id : Text) (t : ℕ) (es : List Event) (g : Gates)
    → Quiet id t es
    → g.cooldown_until id ≡ some t
    → (run g es).cooldown_until id ≡ some t
unfolding run
run-cooldown id t [] g q h = h
run-cooldown id t (asked x at ∷ rest) g q h =
    run-cooldown id t rest _ q.1 (reserve-cooldown x id at t g q.0 h)
run-cooldown id t (concluded x unchanged ∷ rest) g q h = run-cooldown id t rest _ q.1 h
run-cooldown id t (concluded x cleared ∷ rest) g q h = run-cooldown id t rest _ q.1 (rw q.0 h)
run-cooldown id t (concluded x (until s) ∷ rest) g q h = run-cooldown id t rest _ q.1 (rw q.0 h)
run-cooldown id t (released x ∷ rest) g q h = run-cooldown id t rest _ q h
run-cooldown id t (signalled x ∷ rest) g q h = run-cooldown id t rest _ q.1 (rw q.0 h)

abbrev pub is_refused : Option CancelledReason → Bool
is_refused none = false
is_refused (some reason) = true

cooldown_set :
    (id : Text) (t : ℕ) (g : Gates) → (conclude id (until t) g).cooldown_until id ≡ some t
unfolding conclude
cooldown_set id t g = rw (text_eq_refl id) refl

refused :
    (id : Text) (at t : ℕ) (g : Gates)
    → g.cooldown_until id ≡ some t
    → at < t
    → is_refused (reserve_device_attempt id at g).0 ≡ true
unfolding reserve_device_attempt
refused id at t g h lt = elim (Bool-cases (is_active g.active id)) [
  | inl e ↦ rw e refl
  | inr e ↦ rw (e, h) (ground arith)
]

-- After an outcome that sets a cooldown until `t`, each operation of the device that is asked for before
-- `t` is turned away, if until then no other outcome of the device and no return of it is recorded, and each
-- operation of it that is asked for is before `t` too.
pub reserve_device_attempt-cooldown :
    (id : Text) (t at : ℕ) (g : Gates) (es : List Event)
    → Quiet id t es
    → at < t
    → is_refused (reserve_device_attempt id at (run (conclude id (until t) g) es)).0 ≡ true
reserve_device_attempt-cooldown id t at g es q lt =
    refused id at t _ (run-cooldown id t es _ q (cooldown_set id t g)) lt
