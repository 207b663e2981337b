-- ===== src/Realtime/ReplayWindow/Exact.antt =====
-- About readReplayWindow: exactly what its window holds.
use Prim.Native.Nat.{ℕ, suc, ◌≤◌, ◌<◌}
use mathlib.Core.List.{Perm, filter, cons≢nil}
use mathlib.Core.List.Perm
use native.Mathlib.Decide.{dec_le, dec_lt}
use aquarium_controller.Prelude.{
  zero, ◌≡◌, refl, ◌⊎◌, inl, inr, true, false, List, [], ◌∷◌, ◌++◌, if◌then◌else◌, if_elim, ltb,
  ◌==◌, length, take, drop, take-append-drop, arith, Bool-cases,
}
use aquarium_controller.Prelude.Sorting.{
  insert_by, sort_by, by_key, count, Lowest, Lowest-trans, IsAscending, sort_by-IsAscending,
}
use aquarium_controller.Realtime.EventStream.{CommittedStateEvent, ReplayWindow, larger}
use aquarium_controller.Realtime.EventStream.Catching.{revisions_of, in_turn}
use aquarium_controller.Realtime.ReplayWindow.{highest, lowest, selected, read_replay_window}

-- The rows of the outbox after one revision and up to another
abbrev pub rows_between : ℕ → ℕ → List CommittedStateEvent → List CommittedStateEvent
rows_between after current outbox =
    filter {p = λ (e : CommittedStateEvent). after < e.revision} (λ e. dec_lt after e.revision)
      (filter {p = λ (e : CommittedStateEvent). e.revision ≤ current}
        (λ e. dec_le e.revision current) outbox)

selected-rows :
    (after current : ℕ) (outbox : List CommittedStateEvent)
    → selected after current outbox ≡ rows_between after current outbox
selected-rows after current [] = refl
selected-rows after current (e ∷ rest) = ground (arith, selected-rows after current rest)

insert_by-Perm :
    (e : CommittedStateEvent) (events : List CommittedStateEvent)
    → Perm (insert_by (by_key (λ (e : CommittedStateEvent). e.revision)) e events) (e ∷ events)
unfolding insert_by
insert_by-Perm e [] = Perm.refl (e ∷ [])
insert_by-Perm e (f ∷ rest) = elim (Bool-cases (ltb f.revision e.revision)) [
  | inl t ↦ rw t (Perm.trans (Perm.cons f (insert_by-Perm e rest)) (Perm.swap e f rest))
  | inr t ↦ rw t (Perm.refl (e ∷ f ∷ rest))
]

in_turn-Perm : (events : List CommittedStateEvent) → Perm (in_turn events) events
unfolding sort_by
in_turn-Perm [] = Perm.nil
in_turn-Perm (e ∷ rest) =
    Perm.trans (insert_by-Perm e (in_turn rest)) (Perm.cons e (in_turn-Perm rest))

abbrev pub Highest : ℕ → List ℕ → Type 0
Highest n [] = Unit {0}
Highest n (m ∷ rest) = (m ≤ n) × Highest n rest

Highest-trans : (n k : ℕ) (xs : List ℕ) → n ≤ k → Highest n xs → Highest k xs
Highest-trans n k [] h l = tt
Highest-trans n k (m ∷ rest) h (a, l) = (omega arith, Highest-trans n k rest h l)

-- The greatest of the numbers, or 0 if there are none
abbrev pub IsGreatest : ℕ → List ℕ → Type 0
IsGreatest n numbers = Highest n numbers × (((numbers ≡ []) × (n ≡ 0)) ⊎ (0 < count n numbers))

-- The least of the numbers, or the default if there are none
abbrev pub IsLeast : ℕ → ℕ → List ℕ → Type 0
IsLeast default n numbers =
    Lowest n numbers × (((numbers ≡ []) × (n ≡ default)) ⊎ (0 < count n numbers))

larger-IsGreatest :
    (n m : ℕ) (rest : List ℕ) → IsGreatest m rest → IsGreatest (larger n m) (n ∷ rest)
larger-IsGreatest n m rest (bound, found) =
    if_elim (λ (v : ℕ). IsGreatest v (n ∷ rest)) {t = ltb n m} {x = m}
      (λ below. (
        (ground arith, bound),
        inr (elim found [
          | inl (none_left, is_zero) ↦ absurd (ground arith)
          | inr here ↦ omega arith
        ]),
      ))
      (λ top. ((omega arith, Highest-trans m n rest (ground arith) bound), inr (ground arith)))

highest-IsGreatest : (numbers : List ℕ) → IsGreatest (highest numbers) numbers
highest-IsGreatest [] = (tt, inl (refl, refl))
highest-IsGreatest (n ∷ rest) = larger-IsGreatest n (highest rest) rest (highest-IsGreatest rest)

smaller-IsLeast :
    (default n m k : ℕ) (rest : List ℕ)
    → IsLeast default m (k ∷ rest)
    → IsLeast default (if ltb m n then m else n) (n ∷ k ∷ rest)
smaller-IsLeast default n m k rest (bound, found) =
    if_elim (λ (v : ℕ). IsLeast default v (n ∷ k ∷ rest)) {t = ltb m n} {x = m}
      (λ below. (
        (ground arith, bound),
        inr (elim found [
          | inl (none_left, is_default) ↦ absurd (cons≢nil none_left)
          | inr here ↦ omega arith
        ]),
      ))
      (λ low. ((omega arith, Lowest-trans n m (k ∷ rest) (ground arith) bound), inr (ground arith)))

lowest-IsLeast :
    (default : ℕ) (outbox : List CommittedStateEvent)
    → IsLeast default (lowest default outbox) (revisions_of outbox)
lowest-IsLeast default [] = (tt, inl (refl, refl))
lowest-IsLeast default (e ∷ []) = ((omega arith, tt), inr (ground arith))
lowest-IsLeast default (e ∷ f ∷ rest) =
    smaller-IsLeast default e.revision (lowest default (f ∷ rest)) f.revision (revisions_of rest)
      (lowest-IsLeast default (f ∷ rest))

-- What the read makes of the rest of the rows: with none left, all are read; else one more than allowed is.
abbrev pub Limited : ℕ → ReplayWindow → List CommittedStateEvent → Type 0
Limited max_replay_events w rest =
    ((w.replay_limit_exceeded ≡ false) × (rest ≡ []) × (length w.events ≤ max_replay_events))
    ⊎ ((w.replay_limit_exceeded ≡ true) × (length w.events ≡ suc max_replay_events))

cut_at :
    (n : ℕ) (xs : List CommittedStateEvent)
    → ((length (take (suc n) xs) ≤ n) × (drop (suc n) xs ≡ [])) ⊎ (length (take (suc n) xs) ≡ suc n)
cut_at n [] = inl (omega arith, refl)
cut_at zero (x ∷ xs) = inr refl
cut_at (suc n) (x ∷ xs) = elim (cut_at n xs) [
  | inl (few, all) ↦ inl (omega arith, all)
  | inr full ↦ inr (omega arith)
]

read_replay_window-Limited :
    (max_replay_events : ℕ) (revisions : List ℕ) (outbox : List CommittedStateEvent) (after : ℕ)
    → let w = read_replay_window max_replay_events revisions outbox after in
      Limited max_replay_events w
        (drop (suc max_replay_events) (in_turn (selected after w.current_revision outbox)))
unfolding read_replay_window
read_replay_window-Limited max_replay_events revisions outbox after =
    let found = in_turn (selected after (highest revisions) outbox) in
    elim (cut_at max_replay_events found) [
      | inl (few, all) ↦ inl (ground arith, all, few)
      | inr full ↦ inr (ground arith, full)
    ]

-- What is read: the current revision is the greatest one that was made, or 0; the earliest one available is the
-- least of the outbox, or for an empty outbox 0 or the one after the current revision. The events, followed by
-- the rows that the limit leaves out, are exactly the rows of the outbox after the requested revision and up to
-- the current one, ascending. If the limit is not exceeded, none is left out and no more than it are read; if it
-- is, one more than it is read.
pub read_replay_window_exact :
    (max_replay_events : ℕ) (revisions : List ℕ) (outbox : List CommittedStateEvent) (after : ℕ)
    → let w = read_replay_window max_replay_events revisions outbox after in
      let n = w.current_revision in
      IsGreatest n revisions
      × IsLeast (if n == 0 then 0 else suc n) w.earliest_available_revision (revisions_of outbox)
      × ((rest : List CommittedStateEvent) × IsAscending (revisions_of (w.events ++ rest))
          × Perm (w.events ++ rest) (rows_between after n outbox)
          × Limited max_replay_events w rest)
unfolding read_replay_window
read_replay_window_exact max_replay_events revisions outbox after =
    let current = highest revisions in
    let found = selected after current outbox in
    let whole = take-append-drop (suc max_replay_events) (in_turn found) in
    (
      highest-IsGreatest revisions,
      lowest-IsLeast (if current == 0 then 0 else suc current) outbox,
      (
        drop (suc max_replay_events) (in_turn found),
        rw whole (sort_by-IsAscending (λ (e : CommittedStateEvent). e.revision) found),
        rw (whole, ← (selected-rows after current outbox)) (in_turn-Perm found),
        read_replay_window-Limited max_replay_events revisions outbox after,
      ),
    )
