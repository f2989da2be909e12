-- ===== src/Prelude/Lists.antt =====
-- Lists measured by native numbers, under the library's names, and Boolean searches.
use Prim.Native.Nat.{ℕ, zero, suc, ◌+◌}
use mathlib.Core.Path.{◌≡◌, refl, ap}
use mathlib.Core.Bool.{Bool, true, false, ◌||◌}
use mathlib.Core.List.{List, [], ◌∷◌, ◌++◌}
use native.Mathlib.Omega.{arith}
use tapauth.Prelude.Tests.{if◌then◌else◌}

module _ {ℓ} {A : Type ℓ} where
  abbrev pub length : List A → ℕ
  length [] = 0
  length (x ∷ xs) = suc (length xs)

  abbrev pub take : ℕ → List A → List A
  take zero xs = []
  take (suc n) [] = []
  take (suc n) (x ∷ xs) = x ∷ take n xs

  abbrev pub drop : ℕ → List A → List A
  drop zero xs = xs
  drop (suc n) [] = []
  drop (suc n) (x ∷ xs) = drop n xs

  -- `iter().any(p)`.
  abbrev pub any : (A → Bool) → List A → Bool
  any p [] = false
  any p (x ∷ xs) = p x || any p xs

  -- `retain(p)` and `filter(p)`: the kept items stay in order.
  abbrev pub retain : (A → Bool) → List A → List A
  retain p [] = []
  retain p (x ∷ xs) = let rest = retain p xs in if p x then x ∷ rest else rest

  abbrev pub is_empty : List A → Bool
  is_empty [] = true
  is_empty (x ∷ xs) = false

  abbrev pub All {κ} : (A → Type κ) → List A → Type κ
  All P [] = Unit
  All P (x ∷ xs) = P x × All P xs

  -- Membership with the place kept.
  pub data Among (a : A) : List A → Type ℓ where
    first : {x : A} {xs : List A} → a ≡ x → Among a (x ∷ xs)
    later : {x : A} {xs : List A} → Among a xs → Among a (x ∷ xs)

  pub length-append : (xs ys : List A) → length (xs ++ ys) ≡ length xs + length ys
  length-append [] ys = omega arith
  length-append (x ∷ xs) ys = omega (arith, length-append xs ys)

  pub take-length-append : (xs ys : List A) (n : ℕ) → length xs ≡ n → take n (xs ++ ys) ≡ xs
  take-length-append [] ys zero h = refl
  take-length-append [] ys (suc n) h = absurd (omega arith)
  take-length-append (x ∷ xs) ys zero h = absurd (omega arith)
  take-length-append (x ∷ xs) ys (suc n) h = ap (◌∷◌ x) (take-length-append xs ys n (omega arith))

  pub drop-length-append : (xs ys : List A) (n : ℕ) → length xs ≡ n → drop n (xs ++ ys) ≡ ys
  drop-length-append [] ys zero h = refl
  drop-length-append [] ys (suc n) h = absurd (omega arith)
  drop-length-append (x ∷ xs) ys zero h = absurd (omega arith)
  drop-length-append (x ∷ xs) ys (suc n) h = drop-length-append xs ys n (omega arith)

  -- A search that succeeds has found an item that passes.
  pub any-Among :
      (p : A → Bool) (xs : List A) → any p xs ≡ true → (a : A) × Among a xs × (p a ≡ true)
  any-Among p [] h = absurd (ground arith)
  any-Among p (x ∷ xs) h = found (p x) refl h (any-Among p xs)
    where
      found :
          (b : Bool)
          → p x ≡ b
          → (b || any p xs) ≡ true
          → (any p xs ≡ true → (a : A) × Among a xs × (p a ≡ true))
          → (a : A) × Among a (x ∷ xs) × (p a ≡ true)
      found true e h rest = (x, first refl, e)
      found false e h rest = let (a, m, q) = rest h in (a, later m, q)

  pub Among-any : (p : A → Bool) (a : A) {xs : List A} → Among a xs → p a ≡ true → any p xs ≡ true
  Among-any p a (first e) h = rw (← e) (rw h refl)
  Among-any p a (later {x = x} {xs = xs} m) h = skip (p x) (any p xs) (Among-any p a m h)
    where
      skip : (b c : Bool) → c ≡ true → (b || c) ≡ true
      skip true c e = refl
      skip false c e = e
