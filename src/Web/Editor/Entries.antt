-- ===== src/Web/Editor/Entries.antt =====
-- About the records by channel: what is found of an entry, and what holds of all entries.
use aquarium_controller.Prelude.{
  ◌≡◌, refl, ap, ◌∙◌, inl, inr, false, List, [], ◌∷◌, Option, none, some, if◌then◌else◌, Bool-cases,
  Text, text_eq, text_eq_sound, text_eq_refl,
}
use aquarium_controller.Web.Editor.{entry, with_entry}

module _ {V : Type 0} where
  pub entry-with_entry_self :
      (key : Text) (value : V) (entries : List (Text × V))
      → entry key (with_entry key value entries) ≡ some value
  unfolding entry with_entry
  entry-with_entry_self key value [] = rw (text_eq_refl key) refl
  entry-with_entry_self key value ((k, v) ∷ rest) = elim (Bool-cases (text_eq k key)) [
    | inl e ↦ rw (e, e) refl
    | inr e ↦ rw (e, e) (entry-with_entry_self key value rest)
  ]

  pub entry-with_entry_ne :
      (key other : Text) (value : V) (entries : List (Text × V))
      → text_eq key other ≡ false
      → entry other (with_entry key value entries) ≡ entry other entries
  unfolding entry with_entry
  entry-with_entry_ne key other value [] h = rw h refl
  entry-with_entry_ne key other value ((k, v) ∷ rest) h = elim (Bool-cases (text_eq k key)) [
    | inl e ↦
        let apart : text_eq k other ≡ false =
          ap (λ (t : Text). text_eq t other) (text_eq_sound k key e) ∙ h in
        rw (e, apart) refl
    | inr e ↦ rw e (
        ap (λ (o : Option V). if text_eq k other then some v else o)
          (entry-with_entry_ne key other value rest h))
  ]

  abbrev pub AllEntries : (V → Type 0) → List (Text × V) → Type 0
  AllEntries P [] = Unit {0}
  AllEntries P ((k, v) ∷ rest) = P v × AllEntries P rest

  pub AllEntries-with_entry :
      (P : V → Type 0) (key : Text) (value : V) (entries : List (Text × V))
      → P value
      → AllEntries P entries
      → AllEntries P (with_entry key value entries)
  unfolding with_entry
  AllEntries-with_entry P key value [] h a = (h, tt)
  AllEntries-with_entry P key value ((k, v) ∷ rest) h (hv, a) = elim (Bool-cases (text_eq k key)) [
    | inl e ↦ rw e (h, a)
    | inr e ↦ rw e (hv, AllEntries-with_entry P key value rest h a)
  ]

  -- A property of an entry that is found
  abbrev pub Found : (V → Type 0) → Option V → Type 0
  Found P none = Unit {0}
  Found P (some v) = P v

  pub entry-Found :
      (P : V → Type 0) (key : Text) (entries : List (Text × V))
      → AllEntries P entries
      → Found P (entry key entries)
  unfolding entry
  entry-Found P key [] a = tt
  entry-Found P key ((k, v) ∷ rest) (h, a) = elim (Bool-cases (text_eq k key)) [
    | inl e ↦ rw e h
    | inr e ↦ rw e (entry-Found P key rest a)
  ]
