-- ===== src/Transport/ActiveBatch/Accounts.antt =====
-- About the batches of the transport: which expectations have an outcome.
use aquarium_controller.Prelude.{
  ℕ, suc, ◌+◌, ◌<◌, ◌≤◌, ◌≡◌, refl, sym, subst, ap, inl, inr, true, false, ◌||◌, List, [], ◌∷◌,
  ◌++◌, map, some, arith, if◌then◌else◌, Text, text_eq, ◌==◌, length, length-append, Bool-cases,
}
use aquarium_controller.Prelude.Sorting.{one_if, count}
use aquarium_controller.Transport.Outcomes.{NormalizedCommand, CommandOutcome}
use aquarium_controller.Transport.ActiveBatch.{
  BatchExpectation, expectations_from, find_expectation, has_outcome, values, fill, for_device,
}

abbrev pub Outs : Type 0
Outs = List (ℕ × CommandOutcome)

abbrev pub indexes : Outs → List ℕ
indexes outs = map (λ o. o.index) (values outs)

-- The original indexes of the expectations that have an outcome
abbrev pub covered : Outs → List BatchExpectation → List ℕ
covered outs [] = []
covered outs (e ∷ rest) =
    if has_outcome e.local_index outs
    then e.original_index ∷ covered outs rest
    else covered outs rest

abbrev pub originals : List BatchExpectation → List ℕ
originals = map (λ e. e.original_index)

pub has_outcome-append :
    (j i : ℕ) (o : CommandOutcome) (outs : Outs)
    → has_outcome j (outs ++ ((i, o) ∷ [])) ≡ (has_outcome j outs || i == j)
unfolding has_outcome
has_outcome-append j i o [] = ground arith
has_outcome-append j i o ((k, p) ∷ rest) = ground (arith, has_outcome-append j i o rest)

covered_other :
    (i k : ℕ) (o : CommandOutcome) (outs : Outs) (cs : List NormalizedCommand)
    → i < k
    → covered (outs ++ ((i, o) ∷ [])) (expectations_from k cs)
      ≡ covered outs (expectations_from k cs)
unfolding expectations_from
covered_other i k o outs [] h = refl
covered_other i k o outs (c ∷ rest) h =
    ground (arith, has_outcome-append k i o outs, covered_other i (suc k) o outs rest)

-- An outcome for an expectation that has none
covered_new :
    (n i k : ℕ) (o : CommandOutcome) (outs : Outs) (cs : List NormalizedCommand)
    (e : BatchExpectation)
    → find_expectation i (expectations_from k cs) ≡ some e
    → has_outcome i outs ≡ false
    → (count n (covered (outs ++ ((i, o) ∷ [])) (expectations_from k cs))
        ≡ one_if n e.original_index + count n (covered outs (expectations_from k cs)))
      × (length (covered (outs ++ ((i, o) ∷ [])) (expectations_from k cs))
          ≡ suc (length (covered outs (expectations_from k cs))))
unfolding expectations_from find_expectation
covered_new n i k o outs [] e f h = absurd (cc)
covered_new n i k o outs (c ∷ rest) e f h = elim (Bool-cases (k == i)) [
  | inl same ↦
      let here : k ≡ i = ground arith in
      let new : has_outcome k outs ≡ false = rw here h in
      let now : has_outcome k (outs ++ ((i, o) ∷ [])) ≡ true =
        ground (arith, has_outcome-append k i o outs) in
      let orig : e.original_index ≡ c.original_index = ground arith in
      rw (now, new, covered_other i (suc k) o outs rest (omega arith), orig) (refl, refl)
  | inr other ↦
      let same_test : has_outcome k (outs ++ ((i, o) ∷ [])) ≡ has_outcome k outs =
        ground (arith, has_outcome-append k i o outs) in
      let (a, b) = covered_new n i (suc k) o outs rest e (rw other at f) h in
      elim (Bool-cases (has_outcome k outs)) [
        | inl old ↦ rw (same_test, old) (omega (arith, a), omega (arith, b))
        | inr none' ↦ rw (same_test, none') (a, b)
      ]
]

-- Each outcome is that of one expectation, and no expectation has two.
abbrev pub Accounts : List BatchExpectation → Outs → Type 0
Accounts es outs =
    ((n : ℕ) → count n (indexes outs) ≡ count n (covered outs es))
    × (length outs ≡ length (covered outs es))

indexes-append :
    (n i : ℕ) (o : CommandOutcome) (outs : Outs)
    → count n (indexes (outs ++ ((i, o) ∷ []))) ≡ one_if n o.index + count n (indexes outs)
indexes-append n i o [] = omega arith
indexes-append n i o (p ∷ rest) = omega (arith, indexes-append n i o rest)

-- Expectations that are those of the batch
abbrev pub AreFound : List BatchExpectation → List BatchExpectation → Type 0
AreFound es [] = Unit {0}
AreFound es (e ∷ rest) = (find_expectation e.local_index es ≡ some e) × AreFound es rest

AreFound-later :
    (e : BatchExpectation) (es : List BatchExpectation) (k : ℕ) (cs : List NormalizedCommand)
    → e.local_index < k
    → AreFound es (expectations_from k cs)
    → AreFound (e ∷ es) (expectations_from k cs)
unfolding expectations_from find_expectation
AreFound-later e es k [] h f = tt
AreFound-later e es k (c ∷ rest) h (a, f) =
    let other : (e.local_index == k) ≡ false = ground arith in
    (rw other a, AreFound-later e es (suc k) rest (omega arith) f)

pub AreFound-all :
    (k : ℕ) (cs : List NormalizedCommand)
    → AreFound (expectations_from k cs) (expectations_from k cs)
unfolding expectations_from find_expectation
AreFound-all k [] = tt
AreFound-all k (c ∷ rest) =
    let here : (k == k) ≡ true = ground arith in
    let e : BatchExpectation = record {
      local_index = k;
      original_index = c.original_index;
      command = c;
    } in
    (
      rw here refl,
      AreFound-later e (expectations_from (suc k) rest) (suc k) rest (omega arith)
          (AreFound-all (suc k) rest),
    )

pub AreFound-for_device :
    (device_id : Text) (es ds : List BatchExpectation)
    → AreFound es ds
    → AreFound es (for_device device_id ds)
unfolding for_device
AreFound-for_device device_id es [] f = tt
AreFound-for_device device_id es (e ∷ rest) (a, f) =
    elim (Bool-cases (text_eq e.command.target_id device_id)) [
      | inl mine ↦ rw mine (a, AreFound-for_device device_id es rest f)
      | inr other ↦ rw other (AreFound-for_device device_id es rest f)
    ]

pub covered_none : (k : ℕ) (cs : List NormalizedCommand) → covered [] (expectations_from k cs) ≡ []
unfolding expectations_from has_outcome
covered_none k [] = refl
covered_none k (c ∷ rest) = covered_none (suc k) rest

module _ (cs : List NormalizedCommand) where
  abbrev pub es : List BatchExpectation
  es = expectations_from 0 cs

  pub append-Accounts :
      (i : ℕ) (o : CommandOutcome) (outs : Outs) (e : BatchExpectation)
      → find_expectation i es ≡ some e
      → has_outcome i outs ≡ false
      → o.index ≡ e.original_index
      → Accounts es outs
      → Accounts es (outs ++ ((i, o) ∷ []))
  append-Accounts i o outs e f h q (c, l) = (
    λ n.
        let same = ap (λ (t : ℕ). one_if n t) q in
        omega (arith, c n, indexes-append n i o outs, same, (covered_new n i 0 o outs cs e f h).0),
    omega (arith, l, length-append outs ((i, o) ∷ []), (covered_new 0 i 0 o outs cs e f h).1),
  )

  -- `make` says the index of the expectation.
  pub fill-Accounts :
      (make : BatchExpectation → CommandOutcome) (ds : List BatchExpectation) (outs : Outs)
      → ((e : BatchExpectation)
          → find_expectation e.local_index es ≡ some e
          → (make e).index ≡ e.original_index)
      → AreFound es ds
      → Accounts es outs
      → Accounts es (fill make ds outs)
  unfolding fill
  fill-Accounts make [] outs m f a = a
  fill-Accounts make (e ∷ rest) outs m f a = elim (Bool-cases (has_outcome e.local_index outs)) [
    | inl old ↦ rw old (fill-Accounts make rest outs m f.1 a)
    | inr new ↦ rw new (
        fill-Accounts make rest (outs ++ ((e.local_index, make e) ∷ [])) m f.1
          (append-Accounts e.local_index (make e) outs e f.0 new (m e f.0) a))
  ]

-- What is found says the index of its command.
pub original-find_expectation :
    (i k : ℕ) (cs : List NormalizedCommand) (e : BatchExpectation)
    → find_expectation i (expectations_from k cs) ≡ some e
    → (e.original_index ≡ e.command.original_index) × (e.local_index ≡ i)
unfolding find_expectation expectations_from
original-find_expectation i k [] e f = absurd (cc)
original-find_expectation i k (c ∷ rest) e f =
    ground (arith, original-find_expectation i (suc k) rest e)

pub originals_lem :
    (k : ℕ) (cs : List NormalizedCommand)
    → originals (expectations_from k cs) ≡ map (λ c. c.original_index) cs
unfolding expectations_from
originals_lem k [] = refl
originals_lem k (c ∷ rest) = ap (◌∷◌ c.original_index) (originals_lem (suc k) rest)

length-covered-le :
    (k : ℕ) (outs : Outs) (cs : List NormalizedCommand)
    → length (covered outs (expectations_from k cs)) ≤ length cs
unfolding expectations_from
length-covered-le k outs [] = omega arith
length-covered-le k outs (c ∷ rest) = elim (Bool-cases (has_outcome k outs)) [
  | inl old ↦ rw old (omega (arith, length-covered-le (suc k) outs rest))
  | inr new ↦ rw new (omega (arith, length-covered-le (suc k) outs rest))
]

pub covered_of_full :
    (k : ℕ) (outs : Outs) (cs : List NormalizedCommand)
    → length (covered outs (expectations_from k cs)) ≡ length cs
    → covered outs (expectations_from k cs) ≡ map (λ c. c.original_index) cs
unfolding expectations_from
covered_of_full k outs [] l = refl
covered_of_full k outs (c ∷ rest) l = elim (Bool-cases (has_outcome k outs)) [
  | inr new ↦ absurd (omega (arith, length-covered-le (suc k) outs rest, (rw new at l)))
  | inl old ↦
      rw old (
        ap (◌∷◌ c.original_index)
          (covered_of_full (suc k) outs rest (omega (arith, (rw old at l)))))
]

abbrev pub AllHave : Outs → List BatchExpectation → Type 0
AllHave outs [] = Unit {0}
AllHave outs (e ∷ rest) = (has_outcome e.local_index outs ≡ true) × AllHave outs rest

pub length-covered_of_all :
    (outs : Outs) (ds : List BatchExpectation) → AllHave outs ds → covered outs ds ≡ originals ds
length-covered_of_all outs [] h = refl
length-covered_of_all outs (e ∷ rest) (a, h) =
    rw a (ap (◌∷◌ e.original_index) (length-covered_of_all outs rest h))

has_outcome-fill_old :
    (i : ℕ) (make : BatchExpectation → CommandOutcome) (ds : List BatchExpectation) (outs : Outs)
    → has_outcome i outs ≡ true
    → has_outcome i (fill make ds outs) ≡ true
unfolding fill
has_outcome-fill_old i make [] outs h = h
has_outcome-fill_old i make (e ∷ rest) outs h = elim (Bool-cases (has_outcome e.local_index outs)) [
  | inl old ↦ rw old (has_outcome-fill_old i make rest outs h)
  | inr new ↦ rw new (
      has_outcome-fill_old i make rest (outs ++ ((e.local_index, make e) ∷ []))
        (ground (arith, has_outcome-append i e.local_index (make e) outs)))
]

fill_old :
    (make : BatchExpectation → CommandOutcome) (e : BatchExpectation) (ds : List BatchExpectation)
    (outs : Outs)
    → has_outcome e.local_index outs ≡ true
    → fill make (e ∷ ds) outs ≡ fill make ds outs
unfolding fill
fill_old make e ds outs h = rw h refl

fill_new :
    (make : BatchExpectation → CommandOutcome) (e : BatchExpectation) (ds : List BatchExpectation)
    (outs : Outs)
    → has_outcome e.local_index outs ≡ false
    → fill make (e ∷ ds) outs ≡ fill make ds (outs ++ ((e.local_index, make e) ∷ []))
unfolding fill
fill_new make e ds outs h = rw h refl

pub fill-AllHave :
    (make : BatchExpectation → CommandOutcome) (ds : List BatchExpectation) (outs : Outs)
    → AllHave (fill make ds outs) ds
fill-AllHave make [] outs = tt
fill-AllHave make (e ∷ rest) outs = elim (Bool-cases (has_outcome e.local_index outs)) [
  | inl old ↦
      subst (λ (x : Outs). AllHave x (e ∷ rest)) (sym (fill_old make e rest outs old))
        (has_outcome-fill_old e.local_index make rest outs old, fill-AllHave make rest outs)
  | inr new ↦
      let added : Outs = outs ++ ((e.local_index, make e) ∷ []) in
      subst (λ (x : Outs). AllHave x (e ∷ rest)) (sym (fill_new make e rest outs new))
        (
          has_outcome-fill_old e.local_index make rest added
              (ground (arith, has_outcome-append e.local_index e.local_index (make e) outs)),
          fill-AllHave make rest added,
        )
]
