-- ===== src/Local/Env.antt =====
-- manager_lifecycle.go: sameEnv compares two lists as multisets.
use mathlib.Core.List.{Perm, foldr, is_set}
use native.Mathlib.Nat.{ℕ_set}
use mathlib.Core.List.Perm
use etcd_infra.Common.{
  suc, ◌≡◌, ◌↔◌, refl, sym, ap, ◌∙◌, subst, ◌⊎◌, inl, inr, Bool, true, false, not, ◌&&◌, List, [],
  ◌∷◌, arith, if◌then◌else◌, ◌==◌, Text, text_eq, text_eq_iff, text_leb, insert_sorted, sort,
  sort-perm, length,
}

-- slices.Equal
unfoldable pub texts_eq : List Text → List Text → Bool
texts_eq [] [] = true
texts_eq [] (y ∷ ys) = false
texts_eq (x ∷ xs) [] = false
texts_eq (x ∷ xs) (y ∷ ys) = text_eq x y && texts_eq xs ys

unfoldable pub same_env : List Text → List Text → Bool
unfolding texts_eq
same_env a b =
    if not (length a == length b) then false else texts_eq (sort text_leb a) (sort text_leb b)

texts_eq_iff : (xs ys : List Text) → (texts_eq xs ys ≡ true) ↔ (xs ≡ ys)
unfolding texts_eq
texts_eq_iff [] [] = ground arith
texts_eq_iff [] (y ∷ ys) = ground arith
texts_eq_iff (x ∷ xs) [] = ground arith
texts_eq_iff (x ∷ xs) (y ∷ ys) = ground (arith, text_eq_iff x y, texts_eq_iff xs ys)

text_leb_total : (s t : Text) → (text_leb s t ≡ true) ⊎ (text_leb t s ≡ true)
unfolding text_leb
text_leb_total [] t = inl refl
text_leb_total (c ∷ s) [] = inr refl
text_leb_total (c ∷ s) (d ∷ t) = ground (arith, text_leb_total s t)

text_leb_trans : (r s t : Text) → text_leb r s ≡ true → text_leb s t ≡ true → text_leb r t ≡ true
unfolding text_leb
text_leb_trans [] s t p q = refl
text_leb_trans (b ∷ r) [] t p q = absurd (cc)
text_leb_trans (b ∷ r) (c ∷ s) [] p q = absurd (cc)
text_leb_trans (b ∷ r) (c ∷ s) (d ∷ t) p q = ground (arith, text_leb_trans r s t)

text_leb_antisymm : (s t : Text) → text_leb s t ≡ true → text_leb t s ≡ true → s ≡ t
unfolding text_leb
text_leb_antisymm [] [] p q = refl
text_leb_antisymm [] (d ∷ t) p q = absurd (cc)
text_leb_antisymm (c ∷ s) [] p q = absurd (cc)
text_leb_antisymm (c ∷ s) (d ∷ t) p q = ground (arith, text_leb_antisymm s t)

-- The order of two insertions does not matter.
insert_sorted_comm :
    (x y : Text) (zs : List Text)
    → insert_sorted text_leb x (insert_sorted text_leb y zs)
      ≡ insert_sorted text_leb y (insert_sorted text_leb x zs)
unfolding insert_sorted
insert_sorted_comm x y [] = ground (arith, text_leb_total x y, text_leb_antisymm x y)
insert_sorted_comm x y (z ∷ zs) = ground (
  arith,
  insert_sorted_comm x y zs,
  text_leb_total x y,
  text_leb_total x z,
  text_leb_total y z,
  text_leb_antisymm x y,
  text_leb_trans x y z,
  text_leb_trans y x z,
)

sort-foldr : (xs : List Text) → sort text_leb xs ≡ foldr (insert_sorted text_leb) [] xs
unfolding sort
sort-foldr [] = refl
sort-foldr (x ∷ xs) = ap (insert_sorted text_leb x) (sort-foldr xs)

length-foldr : {A : Type 0} (xs : List A) → length xs ≡ foldr (λ _ n. suc n) 0 xs
length-foldr [] = refl
length-foldr (x ∷ xs) = ap suc (length-foldr xs)

sort_of_perm : {a b : List Text} → Perm a b → sort text_leb a ≡ sort text_leb b
sort_of_perm {a} {b} p =
    sort-foldr a
    ∙ Perm.foldr-eq (is_set (is_set ℕ_set)) (insert_sorted text_leb) insert_sorted_comm p []
    ∙ sym (sort-foldr b)

length_of_perm : {a b : List Text} → Perm a b → length a ≡ length b
length_of_perm {a} {b} p =
    length-foldr a ∙ Perm.foldr-eq ℕ_set (λ _ n. suc n) (λ x y n. refl) p 0 ∙ sym (length-foldr b)

-- Two environments are the same exactly when one is a rearrangement of the other, each entry with
-- its number of occurrences.
pub same_env-perm : (a b : List Text) → (same_env a b ≡ true) ↔ Perm a b
unfolding same_env
same_env-perm a b = (
  λ h.
      let sorted : sort text_leb a ≡ sort text_leb b =
        (texts_eq_iff (sort text_leb a) (sort text_leb b)).0 (ground arith) in
      Perm.trans (Perm.symm (sort-perm text_leb a))
        (subst (λ s. Perm s b) (sym sorted) (sort-perm text_leb b)),
  λ p.
      ground
        (arith, length_of_perm p, texts_eq_iff (sort text_leb a) (sort text_leb b), sort_of_perm p),
)
