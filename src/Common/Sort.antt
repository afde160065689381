-- ===== src/Common/Sort.antt =====
-- The `sort` and `slices` packages: a stable sort by a Boolean order, and the order of texts. The
-- order of code points is the order of the UTF-8 bytes, which Go compares.
use mathlib.Core.List.{Perm}
use mathlib.Core.List.Perm
use etcd_infra.Common.Tests.{ltb, ◌==◌, if◌then◌else◌, Bool-cases}
use etcd_infra.Common.Lists.{All, All-imp, is_empty}
use etcd_infra.Common.Strings.{Text}
use mathlib.Core.Path.{◌≡◌, refl, sym, ◌∙◌}
use mathlib.Core.Logic.{◌⊎◌, inl, inr}
use mathlib.Core.Bool.{Bool, true, false, false≢true}
use mathlib.Core.List.{List, [], ◌∷◌}
use native.Mathlib.Omega.{arith}

module _ {ℓ} {A : Type ℓ} (leq : A → A → Bool) where
  unfoldable pub insert_sorted : A → List A → List A
  insert_sorted x [] = x ∷ []
  insert_sorted x (y ∷ ys) =
      let rest = insert_sorted x ys in if leq x y then x ∷ y ∷ ys else y ∷ rest

  unfoldable pub sort : List A → List A
  unfolding insert_sorted
  sort [] = []
  sort (x ∷ xs) = insert_sorted x (sort xs)

  insert_sorted-perm : (x : A) (ys : List A) → Perm (insert_sorted x ys) (x ∷ ys)
  unfolding insert_sorted
  insert_sorted-perm x [] = Perm.refl (x ∷ [])
  insert_sorted-perm x (y ∷ ys) = elim (Bool-cases (leq x y)) [
    | inl e ↦ rw e (Perm.refl (x ∷ y ∷ ys))
    | inr e ↦ rw e (Perm.trans (Perm.cons y (insert_sorted-perm x ys)) (Perm.swap x y ys))
  ]

  -- Sorting neither loses nor makes up an element.
  pub sort-perm : (xs : List A) → Perm (sort xs) xs
  unfolding sort
  sort-perm [] = Perm.refl []
  sort-perm (x ∷ xs) = Perm.trans (insert_sorted-perm x (sort xs)) (Perm.cons x (sort-perm xs))

  insert_sorted-is_empty : (x : A) (ys : List A) → is_empty (insert_sorted x ys) ≡ false
  unfolding insert_sorted
  insert_sorted-is_empty x [] = refl
  insert_sorted-is_empty x (y ∷ ys) = ground arith

  pub sort-is_empty : (xs : List A) → is_empty (sort xs) ≡ is_empty xs
  unfolding sort
  sort-is_empty [] = refl
  sort-is_empty (x ∷ xs) = insert_sorted-is_empty x (sort xs)

  -- Each element is below all that follow it.
  abbrev pub IsSorted : List A → Type 0
  IsSorted [] = Unit
  IsSorted (x ∷ xs) = All (λ y. leq x y ≡ true) xs × IsSorted xs

module _ {ℓ κ} {A : Type ℓ} (leq : A → A → Bool) (P : A → Type κ) where
  insert_sorted-All : (x : A) (ys : List A) → P x → All P ys → All P (insert_sorted leq x ys)
  unfolding insert_sorted
  insert_sorted-All x [] p h = (p, tt)
  insert_sorted-All x (y ∷ ys) p (q, h) = elim (Bool-cases (leq x y)) [
    | inl e ↦ rw e (p, (q, h))
    | inr e ↦ rw e (q, insert_sorted-All x ys p h)
  ]

  pub sort-All : (xs : List A) → All P xs → All P (sort leq xs)
  unfolding sort
  sort-All [] h = tt
  sort-All (x ∷ xs) (p, h) = insert_sorted-All x (sort leq xs) p (sort-All xs h)

module _ {ℓ} {A : Type ℓ} (leq : A → A → Bool)
    (total : (a b : A) → (leq a b ≡ true) ⊎ (leq b a ≡ true))
    (trans : (a b c : A) → leq a b ≡ true → leq b c ≡ true → leq a c ≡ true) where
  other_way : (a b : A) → leq a b ≡ false → leq b a ≡ true
  other_way a b h = elim (total a b) [ inl p ↦ absurd (false≢true (sym h ∙ p)) | inr p ↦ p ]

  insert_sorted-IsSorted :
      (x : A) (ys : List A) → IsSorted leq ys → IsSorted leq (insert_sorted leq x ys)
  unfolding insert_sorted
  insert_sorted-IsSorted x [] h = (tt, tt)
  insert_sorted-IsSorted x (y ∷ ys) (below, h) = elim (Bool-cases (leq x y)) [
    | inl e ↦
        rw e ((e, All-imp {P = λ z. leq y z ≡ true} ys (λ z p. trans x y z e p) below), (below, h))
    | inr e ↦ rw e (
      insert_sorted-All leq (λ z. leq y z ≡ true) x ys (other_way x y e) below,
      insert_sorted-IsSorted x ys h,
    )
  ]

  -- By a total and transitive order the result is sorted.
  pub sort-IsSorted : (xs : List A) → IsSorted leq (sort leq xs)
  unfolding sort
  sort-IsSorted [] = tt
  sort-IsSorted (x ∷ xs) = insert_sorted-IsSorted x (sort leq xs) (sort-IsSorted xs)

unfoldable pub text_leb : Text → Text → Bool
text_leb [] t = true
text_leb (c ∷ s) [] = false
text_leb (c ∷ s) (d ∷ t) = if c == d then text_leb s t else ltb c d
