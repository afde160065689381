-- ===== src/Common/Lists.antt =====
-- Lists measured and indexed by native numbers, under the library's names, and predicates on them.
use Prim.Native.Nat.{ℕ, zero, suc, ◌+◌}
use mathlib.Core.Path.{◌≡◌, refl, sym, ap, subst}
use mathlib.Core.Bool.{Bool, true, false, ◌&&◌}
use mathlib.Core.List.{List, [], ◌∷◌, ◌++◌, reverse, reverse-cons}
use mathlib.Core.Option.{Option, none, some}
use native.Mathlib.Omega.{arith}
use etcd_infra.Common.Tests.{if◌then◌else◌}

module _ {ℓ} {A : Type ℓ} where
  abbrev pub length : List A → ℕ
  length [] = 0
  length (x ∷ xs) = suc (length xs)

  abbrev pub get_elem? : List A → ℕ → Option A
  get_elem? [] i = none
  get_elem? (x ∷ xs) zero = some x
  get_elem? (x ∷ xs) (suc i) = get_elem? xs i

  -- A write out of bounds changes nothing.
  abbrev pub set : List A → ℕ → A → List A
  set [] i v = []
  set (x ∷ xs) zero v = v ∷ xs
  set (x ∷ xs) (suc i) v = x ∷ set xs i v

  abbrev pub take : ℕ → List A → List A
  take zero xs = []
  take (suc n) [] = []
  take (suc n) (x ∷ xs) = x ∷ take n xs

  abbrev pub drop : ℕ → List A → List A
  drop zero xs = xs
  drop (suc n) [] = []
  drop (suc n) (x ∷ xs) = drop n xs

  abbrev pub replicate : ℕ → A → List A
  replicate zero a = []
  replicate (suc n) a = a ∷ replicate n a

  abbrev pub is_empty : List A → Bool
  is_empty [] = true
  is_empty (x ∷ xs) = false

module _ {ℓ} {A : Type ℓ} where
  pub length-append : (xs ys : List A) → length (xs ++ ys) ≡ length xs + length ys
  length-append [] ys = omega arith
  length-append (x ∷ xs) ys = omega (arith, length-append xs ys)

  pub length-set : (xs : List A) (i : ℕ) (v : A) → length (set xs i v) ≡ length xs
  length-set [] i v = refl
  length-set (x ∷ xs) zero v = refl
  length-set (x ∷ xs) (suc i) v = ap suc (length-set xs i v)

  pub length-replicate : (n : ℕ) (a : A) → length (replicate n a) ≡ n
  length-replicate zero a = refl
  length-replicate (suc n) a = ap suc (length-replicate n a)

  pub take-append_length : (xs ys : List A) → take (length xs) (xs ++ ys) ≡ xs
  take-append_length [] ys = refl
  take-append_length (x ∷ xs) ys = ap (◌∷◌ x) (take-append_length xs ys)

  pub drop-append_length : (xs ys : List A) → drop (length xs) (xs ++ ys) ≡ ys
  drop-append_length [] ys = refl
  drop-append_length (x ∷ xs) ys = drop-append_length xs ys

module _ {ℓ κ} {A : Type ℓ} (P : A → Type κ) where
  abbrev pub All : List A → Type κ
  All [] = Unit
  All (x ∷ xs) = P x × All xs

  pub All-append : (xs ys : List A) → All xs → All ys → All (xs ++ ys)
  All-append [] ys hx hy = hy
  All-append (x ∷ xs) ys hx hy = (hx.0, All-append xs ys hx.1 hy)

  pub All-reverse : (xs : List A) → All xs → All (reverse xs)
  All-reverse [] h = tt
  All-reverse (x ∷ xs) h =
      subst All (sym (reverse-cons x xs))
        (All-append (reverse xs) (x ∷ []) (All-reverse xs h.1) (h.0, tt))

pub All-imp {ℓ κ ι} :
    {A : Type ℓ} {P : A → Type κ} {Q : A → Type ι} (xs : List A)
    → ((x : A) → P x → Q x)
    → All P xs
    → All Q xs
All-imp [] f h = tt
All-imp (x ∷ xs) f (p, h) = (f x p, All-imp xs f h)

module _ {ℓ} {A : Type ℓ} (p : A → Bool) where
  -- The elements that pass a Boolean test.
  abbrev pub keep : List A → List A
  keep [] = []
  keep (x ∷ xs) = let rest = keep xs in if p x then x ∷ rest else rest

  abbrev pub every : List A → Bool
  every [] = true
  every (x ∷ xs) = p x && every xs
