-- ===== src/Prelude/Result.antt =====
-- What a call that may throw comes to. Of a JavaScript exception the class is kept, not the message.
use mathlib.Core.Path.{◌≡◌, refl}
use mathlib.Core.Bool.{Bool, true, false}
use mathlib.Core.List.{List, [], ◌∷◌}

pub data Error : Type 0 where
  range_error type_error plain_error schema_error : Error

pub data Result {ℓ} (A : Type ℓ) : Type ℓ where
  ok : A → Result A
  throw : Error → Result A

-- `if (!test) throw …`
abbrev pub guard : Bool → Error → Result (Unit {0})
guard true error = ok tt
guard false error = throw error

infixl 5 ◌>>=◌ ◌>>◌
abbrev pub ◌>>=◌ {ℓ κ} : {A : Type ℓ} {B : Type κ} → Result A → (A → Result B) → Result B
throw error >>= next = throw error
ok value >>= next = next value

-- A step whose value is not used
abbrev pub ◌>>◌ {ℓ} : {B : Type ℓ} → Result (Unit {0}) → Result B → Result B
first >> second = first >>= λ u. second

-- `map` over an array with a callback that may throw.
unfoldable pub map_result {ℓ κ} :
    {A : Type ℓ} {B : Type κ} → (A → Result B) → List A → Result (List B)
map_result f [] = ok []
map_result f (x ∷ xs) = do y ← f x; ys ← map_result f xs; ok (y ∷ ys)

-- What a bind that returns has gone through
pub >>=-eq-ok {ℓ κ} :
    {B : Type κ} {A : Type ℓ} (step : Result A) (next : A → Result B) {result : B}
    → step >>= next ≡ ok result
    → (value : A) × (step ≡ ok value) × (next value ≡ ok result)
>>=-eq-ok (throw error) next made = cc
>>=-eq-ok (ok value) next made = (value, refl, made)

pub guard-eq-ok :
    (test : Bool) (error : Error) {u : Unit {0}} → guard test error ≡ ok u → test ≡ true
guard-eq-ok true error passed = refl
guard-eq-ok false error passed = cc
