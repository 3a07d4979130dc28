-- ===== src/Prelude/Lists.antt =====
-- Lists measured and indexed by native numbers, under the library's names, and the bytes of a text.
use Prim.Native.Nat.{ℕ, zero, suc, ◌+◌, ◌<◌, ◌≤◌, min}
use Prim.Native.Char.{code}
use Prim.Native.String.{String}
use mathlib.Core.Path.{◌≡◌, refl, ap, subst}
use mathlib.Core.List.{List, [], ◌∷◌, ◌++◌, map}
use mathlib.Core.Option.{Option, none, some}
use native.Mathlib.Omega.{arith}
use mathlib.Core.Logic.{◌⊎◌, inl, inr}
use mathlib.Core.Bool.{Bool, true, false}
use drizzle_nginx_module.Prelude.Tests.{Bool-cases}

-- The code points of a text: its bytes, if it is ASCII.
abbrev pub codes : String → List ℕ
codes String.[] = []
codes (String.◌∷◌ c s) = code c ∷ codes s

module _ {ℓ} {A : Type ℓ} where
  abbrev pub length : List A → ℕ
  length [] = 0
  length (x ∷ xs) = suc (length xs)

  abbrev pub get_elem? : List A → ℕ → Option A
  get_elem? [] i = none
  get_elem? (x ∷ xs) zero = some x
  get_elem? (x ∷ xs) (suc i) = get_elem? xs i

  abbrev pub take : ℕ → List A → List A
  take zero xs = []
  take (suc n) [] = []
  take (suc n) (x ∷ xs) = x ∷ take n xs

  abbrev pub drop : ℕ → List A → List A
  drop zero xs = xs
  drop (suc n) [] = []
  drop (suc n) (x ∷ xs) = drop n xs

  pub length-append : (xs ys : List A) → length (xs ++ ys) ≡ length xs + length ys
  length-append [] ys = omega arith
  length-append (x ∷ xs) ys = omega (arith, length-append xs ys)

  pub take-length-append : (xs ys : List A) → take (length xs) (xs ++ ys) ≡ xs
  take-length-append [] ys = refl
  take-length-append (x ∷ xs) ys = ap (◌∷◌ x) (take-length-append xs ys)

  pub drop-length-append : (xs ys : List A) → drop (length xs) (xs ++ ys) ≡ ys
  drop-length-append [] ys = refl
  drop-length-append (x ∷ xs) ys = drop-length-append xs ys

  pub get_elem?-some : (xs : List A) (i : ℕ) → i < length xs → (a : A) × (get_elem? xs i ≡ some a)
  get_elem?-some [] i h = elim h [ ]
  get_elem?-some (x ∷ xs) zero h = (x, refl)
  get_elem?-some (x ∷ xs) (suc i) h = get_elem?-some xs i (omega arith)

  abbrev pub All {κ} : (A → Type κ) → List A → Type κ
  All P [] = Unit
  All P (x ∷ xs) = P x × All P xs

  -- The first element that passes the test, and the list without it.
  unfoldable pub extract : (A → Bool) → List A → Option (A × List A)
  extract p [] = none
  extract p (x ∷ xs) = elim (p x) [
    | true ↦ some (x, xs)
    | false ↦ elim (extract p xs) [ none ↦ none | some (y, rest) ↦ some (y, x ∷ rest) ]
  ]

  -- The last element, and the list without it.
  unfoldable pub split_last : List A → Option (List A × A)
  split_last [] = none
  split_last (x ∷ xs) = elim (split_last xs) [
    | none ↦ some ([], x)
    | some (front, y) ↦ some (x ∷ front, y)
  ]

  -- What an extraction finds: an element that passes, between the elements that it leaves.
  abbrev pub Extracted : (A → Bool) → List A → A → List A → Type ℓ
  Extracted p xs y rest =
      (p y ≡ true)
      × (before : List A) × (after : List A) × (xs ≡ before ++ (y ∷ after))
      × (rest ≡ before ++ after)
      × All (λ x. p x ≡ false) before

  pub extract_cases :
      (p : A → Bool) (xs : List A)
      → (All (λ x. p x ≡ false) xs × (extract p xs ≡ none))
        ⊎ ((y : A) × (rest : List A) × (extract p xs ≡ some (y, rest)) × Extracted p xs y rest)
  unfolding extract
  extract_cases p [] = inl (tt, refl)
  extract_cases p (x ∷ xs) = elim (Bool-cases (p x)) [
    | inl e ↦ inr (x, xs, rw (e, extract), (e, [], xs, refl, refl, tt))
    | inr e ↦ elim (extract_cases p xs) [
      | inl (h, n) ↦ inl ((e, h), rw (e, n, extract))
      | inr (y, rest, s, (py, before, after, xe, re, h)) ↦ inr (
        y,
        x ∷ rest,
        rw (e, s, extract),
        (py, x ∷ before, after, ap (◌∷◌ x) xe, ap (◌∷◌ x) re, (e, h)),
      )
    ]
  ]

  pub split_last_cases :
      (xs : List A)
      → ((xs ≡ []) × (split_last xs ≡ none))
        ⊎ ((front : List A) × (y : A) × (split_last xs ≡ some (front, y))
            × (xs ≡ front ++ (y ∷ [])))
  unfolding split_last
  split_last_cases [] = inl (refl, refl)
  split_last_cases (x ∷ xs) = elim (split_last_cases xs) [
    | inl (e, n) ↦ inr ([], x, rw (n, split_last), ap (◌∷◌ x) e)
    | inr (front, y, s, e) ↦ inr (x ∷ front, y, rw (s, split_last), ap (◌∷◌ x) e)
  ]

  pub All-append {κ} : (P : A → Type κ) (xs ys : List A) → All P xs → All P ys → All P (xs ++ ys)
  All-append P [] ys h k = k
  All-append P (x ∷ xs) ys h k = (h.0, All-append P xs ys h.1 k)

  pub All-split {κ} : (P : A → Type κ) (xs ys : List A) → All P (xs ++ ys) → All P xs × All P ys
  All-split P [] ys h = (tt, h)
  All-split P (x ∷ xs) ys h = let rest = All-split P xs ys h.1 in ((h.0, rest.0), rest.1)

  pub take-of_length_le : (n : ℕ) (xs : List A) → length xs ≤ n → take n xs ≡ xs
  take-of_length_le zero [] h = refl
  take-of_length_le zero (x ∷ xs) h = absurd (omega arith)
  take-of_length_le (suc n) [] h = refl
  take-of_length_le (suc n) (x ∷ xs) h = ap (◌∷◌ x) (take-of_length_le n xs (omega arith))

  pub take-append_of_length : (n : ℕ) (xs ys : List A) → length xs ≡ n → take n (xs ++ ys) ≡ xs
  take-append_of_length n xs ys e = subst (λ k. take k (xs ++ ys) ≡ xs) e (take-length-append xs ys)

  pub drop-append_of_length : (n : ℕ) (xs ys : List A) → length xs ≡ n → drop n (xs ++ ys) ≡ ys
  drop-append_of_length n xs ys e = subst (λ k. drop k (xs ++ ys) ≡ ys) e (drop-length-append xs ys)

  pub length-take : (n : ℕ) (xs : List A) → length (take n xs) ≡ min n (length xs)
  length-take zero xs = omega arith
  length-take (suc n) [] = omega arith
  length-take (suc n) (x ∷ xs) = omega (arith, length-take n xs)

  pub extract-head :
      (p : A → Bool) (x : A) (xs : List A) → p x ≡ true → extract p (x ∷ xs) ≡ some (x, xs)
  unfolding extract
  extract-head p x xs e = rw (e, extract)

module _ {ℓ κ} {A : Type ℓ} {B : Type κ} (f : A → B) where
  pub length-map : (xs : List A) → length (map f xs) ≡ length xs
  length-map [] = refl
  length-map (x ∷ xs) = ap suc (length-map xs)
