-- ===== src/Transport/Lanes/Queues.antt =====
-- About the lanes of the transport: the lists of runnable devices and their priorities.
use aquarium_controller.Prelude.{
  ℕ, suc, ◌+◌, ◌-◌, ◌≡◌, refl, sym, ap, ◌∙◌, inl, inr, true, false, List, [], ◌∷◌, ◌++◌, Option,
  none, some, arith, if◌then◌else◌, Text, text_eq, text_eq_sound, text_eq_refl, length, Bool-cases,
}
use aquarium_controller.Transport.Lanes.{
  LegacyCommandPriority, interactive, background, Lanes, includes_id, remove_array_value,
  head_priority, remove_runnable, push_runnable,
}

abbrev pub occurs : Text → List Text → ℕ
occurs d [] = 0
occurs d (x ∷ rest) = if text_eq x d then suc (occurs d rest) else occurs d rest

abbrev pub one_of : LegacyCommandPriority → Option LegacyCommandPriority → ℕ
one_of interactive (some interactive) = 1
one_of background (some background) = 1
one_of _ _ = 0

pub occurs-append :
    (d id : Text) (xs : List Text)
    → occurs d (xs ++ (id ∷ [])) ≡ (if text_eq id d then 1 else 0) + occurs d xs
occurs-append d id [] = ground arith
occurs-append d id (x ∷ rest) = ground (arith, occurs-append d id rest)

pub occurs-remove_array_value :
    (d id : Text) (xs : List Text)
    → occurs d (remove_array_value id xs) ≡ occurs d xs - (if text_eq id d then 1 else 0)
unfolding remove_array_value
occurs-remove_array_value d id [] = ground arith
occurs-remove_array_value d id (x ∷ rest) = elim (Bool-cases (text_eq id x)) [
  | inl same ↦ let here : id ≡ x = text_eq_sound id x same in rw (same, sym here) (ground arith)
  | inr other ↦ elim (Bool-cases (text_eq x d)) [
    | inl is ↦
        let here : x ≡ d = text_eq_sound x d is in
        let no : text_eq id d ≡ false = rw here at other in
        rw (other, is, no) (ground (arith, occurs-remove_array_value d id rest))
    | inr not' ↦ rw (other, not') (occurs-remove_array_value d id rest)
  ]
]

text_eq_sym : (s t : Text) → text_eq s t ≡ true → text_eq t s ≡ true
text_eq_sym s t h = let e : s ≡ t = text_eq_sound s t h in rw e (text_eq_refl t)

pub occurs_of_not_includes_id :
    (id : Text) (xs : List Text) → includes_id id xs ≡ false → occurs id xs ≡ 0
unfolding includes_id
occurs_of_not_includes_id id [] h = refl
occurs_of_not_includes_id id (x ∷ rest) h = elim (Bool-cases (text_eq x id)) [
  | inl same ↦ absurd (let yes = text_eq_sym x id same in ground arith)
  | inr other ↦ elim (Bool-cases (text_eq id x)) [
    | inl same ↦ absurd (let yes = text_eq_sym id x same in cc)
    | inr new ↦ rw other (occurs_of_not_includes_id id rest (rw new at h))
  ]
]

pub length-remove_array_value :
    (id : Text) (xs : List Text)
    → includes_id id xs ≡ true
    → suc (length (remove_array_value id xs)) ≡ length xs
unfolding includes_id remove_array_value
length-remove_array_value id [] h = absurd (cc)
length-remove_array_value id (x ∷ rest) h = elim (Bool-cases (text_eq id x)) [
  | inl same ↦ rw same refl
  | inr other ↦ rw other (ap suc (length-remove_array_value id rest (rw other at h)))
]

-- A device is on a list just as often as its runnable priority says.
pub record Listed (s : Lanes) : Type 0 where
  pub of_interactive :
      (d : Text) → occurs d s.runnable_interactive ≡ one_of interactive (s.runnable_priority d)
  pub of_background :
      (d : Text) → occurs d s.runnable_background ≡ one_of background (s.runnable_priority d)

-- What the runnable priority of a device is to be
abbrev pub due_priority : Lanes → Text → Option LegacyCommandPriority
due_priority s d =
    if includes_id d s.active_device_ids then none else head_priority (s.device_queues d)

pub remove_runnable-Listed :
    (id : Text) (p : Option LegacyCommandPriority) (s : Lanes)
    → s.runnable_priority id ≡ p
    → Listed s
    → Listed (remove_runnable id p s)
remove_runnable-Listed id none s e l = l
remove_runnable-Listed id (some interactive) s e l = record {
  of_interactive = λ d. elim (Bool-cases (text_eq id d)) [
    | inl same ↦
        let here : id ≡ d = text_eq_sound id d same in
        let one : one_of interactive (s.runnable_priority d) ≡ 1 =
          ap (one_of interactive) (rw here at e) in
        rw (occurs-remove_array_value d id s.runnable_interactive, same)
          (omega (arith, l.of_interactive d))
    | inr other ↦
        rw (occurs-remove_array_value d id s.runnable_interactive, other)
          (omega (arith, l.of_interactive d))
  ];
  of_background = λ d. elim (Bool-cases (text_eq id d)) [
    | inl same ↦
        let here : id ≡ d = text_eq_sound id d same in
        let no : one_of background (s.runnable_priority d) ≡ 0 =
          ap (one_of background) (rw here at e) in
        rw same (l.of_background d ∙ no)
    | inr other ↦ rw other (l.of_background d)
  ];
}
remove_runnable-Listed id (some background) s e l = record {
  of_background = λ d. elim (Bool-cases (text_eq id d)) [
    | inl same ↦
        let here : id ≡ d = text_eq_sound id d same in
        let one : one_of background (s.runnable_priority d) ≡ 1 =
          ap (one_of background) (rw here at e) in
        rw (occurs-remove_array_value d id s.runnable_background, same)
          (omega (arith, l.of_background d))
    | inr other ↦
        rw (occurs-remove_array_value d id s.runnable_background, other)
          (omega (arith, l.of_background d))
  ];
  of_interactive = λ d. elim (Bool-cases (text_eq id d)) [
    | inl same ↦
        let here : id ≡ d = text_eq_sound id d same in
        let no : one_of interactive (s.runnable_priority d) ≡ 0 =
          ap (one_of interactive) (rw here at e) in
        rw same (l.of_interactive d ∙ no)
    | inr other ↦ rw other (l.of_interactive d)
  ];
}

pub push_runnable-Listed :
    (id : Text) (p : Option LegacyCommandPriority) (s : Lanes)
    → s.runnable_priority id ≡ none
    → Listed s
    → Listed (push_runnable id p s)
push_runnable-Listed id none s e l = l
push_runnable-Listed id (some interactive) s e l = record {
  of_interactive = λ d. elim (Bool-cases (text_eq id d)) [
    | inl same ↦
        let here : id ≡ d = text_eq_sound id d same in
        let nil : one_of interactive (s.runnable_priority d) ≡ 0 =
          ap (one_of interactive) (rw here at e) in
        rw (occurs-append d id s.runnable_interactive, same) (omega (arith, l.of_interactive d))
    | inr other ↦
        rw (occurs-append d id s.runnable_interactive, other) (omega (arith, l.of_interactive d))
  ];
  of_background = λ d. elim (Bool-cases (text_eq id d)) [
    | inl same ↦
        let here : id ≡ d = text_eq_sound id d same in
        let nil : one_of background (s.runnable_priority d) ≡ 0 =
          ap (one_of background) (rw here at e) in
        rw same (l.of_background d ∙ nil)
    | inr other ↦ rw other (l.of_background d)
  ];
}
push_runnable-Listed id (some background) s e l = record {
  of_background = λ d. elim (Bool-cases (text_eq id d)) [
    | inl same ↦
        let here : id ≡ d = text_eq_sound id d same in
        let nil : one_of background (s.runnable_priority d) ≡ 0 =
          ap (one_of background) (rw here at e) in
        rw (occurs-append d id s.runnable_background, same) (omega (arith, l.of_background d))
    | inr other ↦
        rw (occurs-append d id s.runnable_background, other) (omega (arith, l.of_background d))
  ];
  of_interactive = λ d. elim (Bool-cases (text_eq id d)) [
    | inl same ↦
        let here : id ≡ d = text_eq_sound id d same in
        let nil : one_of interactive (s.runnable_priority d) ≡ 0 =
          ap (one_of interactive) (rw here at e) in
        rw same (l.of_interactive d ∙ nil)
    | inr other ↦ rw other (l.of_interactive d)
  ];
}
