-- ===== src/Base/Lists.antt =====
-- Lists measured and indexed by native numbers, under the library's names.
use Prim.Native.Nat.{ℕ, zero, suc, ◌+◌, ◌-◌, ◌≤◌, min}
use mathlib.Core.Path.{◌≡◌, refl, ap, sym, ◌∙◌}
use mathlib.Core.List.{List, [], ◌∷◌, ◌++◌}
use mathlib.Core.Option.{Option, none, some}
use native.Mathlib.Omega.{arith}

module _ {ℓ} {A : Type ℓ} where
  abbrev pub length : List A → ℕ
  length [] = 0
  length (x ∷ xs) = suc (length xs)

  abbrev pub get_elem? : List A → ℕ → Option A
  get_elem? [] i = none
  get_elem? (x ∷ xs) zero = some x
  get_elem? (x ∷ xs) (suc i) = get_elem? xs i

  abbrev pub take : ℕ → List A → List A
  take zero xs = []
  take (suc n) [] = []
  take (suc n) (x ∷ xs) = x ∷ take n xs

  abbrev pub drop : ℕ → List A → List A
  drop zero xs = xs
  drop (suc n) [] = []
  drop (suc n) (x ∷ xs) = drop n xs

  abbrev pub replicate : ℕ → A → List A
  replicate zero a = []
  replicate (suc n) a = a ∷ replicate n a

  abbrev pub concat : List (List A) → List A
  concat [] = []
  concat (xs ∷ xss) = xs ++ concat xss

  abbrev pub All {κ} : (A → Type κ) → List A → Type κ
  All P [] = Unit
  All P (x ∷ xs) = P x × All P xs

module _ {ℓ} {A : Type ℓ} where
  pub length-append : (xs ys : List A) → length (xs ++ ys) ≡ length xs + length ys
  length-append [] ys = omega arith
  length-append (x ∷ xs) ys = omega (arith, length-append xs ys)

  pub length-take : (n : ℕ) (xs : List A) → length (take n xs) ≡ min n (length xs)
  length-take zero xs = omega arith
  length-take (suc n) [] = omega arith
  length-take (suc n) (x ∷ xs) = omega (arith, length-take n xs)

  pub length-drop : (n : ℕ) (xs : List A) → length (drop n xs) ≡ length xs - n
  length-drop zero xs = omega arith
  length-drop (suc n) [] = omega arith
  length-drop (suc n) (x ∷ xs) = omega (arith, length-drop n xs)

  pub length-replicate : (n : ℕ) (a : A) → length (replicate n a) ≡ n
  length-replicate zero a = refl
  length-replicate (suc n) a = ap suc (length-replicate n a)

  pub take-append-drop : (n : ℕ) (xs : List A) → take n xs ++ drop n xs ≡ xs
  take-append-drop zero xs = refl
  take-append-drop (suc n) [] = refl
  take-append-drop (suc n) (x ∷ xs) = ap (◌∷◌ x) (take-append-drop n xs)

  pub take_zero : (n : ℕ) (xs : List A) → n ≡ 0 → take n xs ≡ []
  take_zero zero xs h = refl
  take_zero (suc n) xs h = absurd (omega arith)

  pub drop_zero : (n : ℕ) (xs : List A) → n ≡ 0 → drop n xs ≡ xs
  drop_zero zero xs h = refl
  drop_zero (suc n) xs h = absurd (omega arith)

  pub take_all : (n : ℕ) (xs : List A) → length xs ≤ n → take n xs ≡ xs
  take_all zero [] h = refl
  take_all zero (x ∷ xs) h = absurd (omega arith)
  take_all (suc n) [] h = refl
  take_all (suc n) (x ∷ xs) h = ap (◌∷◌ x) (take_all n xs (omega arith))

  pub drop_all : (n : ℕ) (xs : List A) → length xs ≤ n → drop n xs ≡ []
  drop_all zero [] h = refl
  drop_all zero (x ∷ xs) h = absurd (omega arith)
  drop_all (suc n) [] h = refl
  drop_all (suc n) (x ∷ xs) h = drop_all n xs (omega arith)

  pub take_eq : {m n : ℕ} (xs : List A) → m ≡ n → take m xs ≡ take n xs
  take_eq xs e = ap (λ k. take k xs) e

  pub drop_eq : {m n : ℕ} (xs : List A) → m ≡ n → drop m xs ≡ drop n xs
  drop_eq xs e = ap (λ k. drop k xs) e

  pub take-append :
      (n : ℕ) (xs ys : List A) → take n (xs ++ ys) ≡ take n xs ++ take (n - length xs) ys
  take-append zero xs ys = sym (take_zero (0 - length xs) ys (omega arith))
  take-append (suc n) [] ys = take_eq {m = suc n} {n = suc n - 0} ys (omega arith)
  take-append (suc n) (x ∷ xs) ys = ap (◌∷◌ x) (
      take-append n xs ys
      ∙ ap (◌++◌ (take n xs))
          (take_eq {m = n - length xs} {n = suc n - suc (length xs)} ys (omega arith)))

  pub drop-append :
      (n : ℕ) (xs ys : List A) → drop n (xs ++ ys) ≡ drop n xs ++ drop (n - length xs) ys
  drop-append zero xs ys = ap (◌++◌ xs) (sym (drop_zero (0 - length xs) ys (omega arith)))
  drop-append (suc n) [] ys = drop_eq {m = suc n} {n = suc n - 0} ys (omega arith)
  drop-append (suc n) (x ∷ xs) ys =
      drop-append n xs ys
      ∙ ap (◌++◌ (drop n xs))
          (drop_eq {m = n - length xs} {n = suc n - suc (length xs)} ys (omega arith))

  pub drop-drop : (m n : ℕ) (xs : List A) → drop m (drop n xs) ≡ drop (n + m) xs
  drop-drop m zero xs = drop_eq {m = m} {n = 0 + m} xs (omega arith)
  drop-drop m (suc n) [] = drop_all m [] (omega arith) ∙ sym (drop_all (suc n + m) [] (omega arith))
  drop-drop m (suc n) (x ∷ xs) =
      drop-drop m n xs ∙ drop_eq {m = suc (n + m)} {n = suc n + m} (x ∷ xs) (omega arith)

  -- `&xs[xs.len() - n ..]`, for n at most the length; all of `xs` for a larger n
  abbrev pub last : ℕ → List A → List A
  last n xs = drop (length xs - n) xs

  pub length-last : (n : ℕ) (xs : List A) → length (last n xs) ≡ min n (length xs)
  length-last n xs = omega (arith, length-drop (length xs - n) xs)

pub take-length-append {ℓ} : {A : Type ℓ} (xs ys : List A) → take (length xs) (xs ++ ys) ≡ xs
take-length-append [] ys = refl
take-length-append (x ∷ xs) ys = ap (◌∷◌ x) (take-length-append xs ys)

pub drop-length-append {ℓ} : {A : Type ℓ} (xs ys : List A) → drop (length xs) (xs ++ ys) ≡ ys
drop-length-append [] ys = refl
drop-length-append (x ∷ xs) ys = drop-length-append xs ys

module _ {ℓ κ} {A : Type ℓ} (P : A → Type κ) where
  pub All-append : (xs ys : List A) → All P xs → All P ys → All P (xs ++ ys)
  All-append [] ys hx hy = hy
  All-append (x ∷ xs) ys hx hy = (hx.0, All-append xs ys hx.1 hy)

  pub All-take : (n : ℕ) (xs : List A) → All P xs → All P (take n xs)
  All-take zero xs h = tt
  All-take (suc n) [] h = tt
  All-take (suc n) (x ∷ xs) h = (h.0, All-take n xs h.1)

  pub All-drop : (n : ℕ) (xs : List A) → All P xs → All P (drop n xs)
  All-drop zero xs h = h
  All-drop (suc n) [] h = tt
  All-drop (suc n) (x ∷ xs) h = All-drop n xs h.1

-- A count past the end takes no more.
pub take-min {ℓ} : {A : Type ℓ} (n : ℕ) (xs : List A) → take (min n (length xs)) xs ≡ take n xs
take-min zero xs = take_zero (min 0 (length xs)) xs (omega arith)
take-min (suc n) [] = take_eq {m = min (suc n) 0} {n = 0} [] (omega arith)
take-min (suc n) (x ∷ xs) =
    take_eq {m = min (suc n) (suc (length xs))} {n = suc (min n (length xs))} (x ∷ xs) (omega arith)
    ∙ ap (◌∷◌ x) (take-min n xs)

pub drop-min {ℓ} : {A : Type ℓ} (n : ℕ) (xs : List A) → drop (min n (length xs)) xs ≡ drop n xs
drop-min zero xs = drop_zero (min 0 (length xs)) xs (omega arith)
drop-min (suc n) [] = drop_eq {m = min (suc n) 0} {n = 0} [] (omega arith)
drop-min (suc n) (x ∷ xs) =
    drop_eq {m = min (suc n) (suc (length xs))} {n = suc (min n (length xs))} (x ∷ xs) (omega arith)
    ∙ drop-min n xs
