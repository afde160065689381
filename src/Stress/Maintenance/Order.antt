-- ===== src/Stress/Maintenance/Order.antt =====
-- scenario_k8s_mixed_size_maintenance.go: the order of the defragmentation.
use mathlib.Core.List.{Perm, perm_append_singleton, Memᴰ}
use mathlib.Core.List.Perm
use mathlib.Core.List.Memᴰ
use etcd_infra.Common.{
  ◌≡◌, refl, sym, subst, inl, inr, true, false, not, List, [], ◌∷◌, ◌++◌, some, arith, Bool-cases,
  Option-cases, is_empty, keep, Text, text_eq, text_eq_iff, text_eq_refl, All,
}
use etcd_infra.Stress.Maintenance.{Status, leads, find_leader, defrag_order}

-- No other entry of the list is equal to the one at hand.
abbrev pub Distinct : List Text → Type 0
Distinct [] = Unit
Distinct (x ∷ xs) = All (λ y. text_eq y x ≡ false) xs × Distinct xs

keep-All :
    (x : Text) (xs : List Text)
    → All (λ y. text_eq y x ≡ false) xs
    → keep (λ e. not (text_eq e x)) xs ≡ xs
keep-All x [] h = refl
keep-All x (y ∷ ys) (p, h) = rw (p, keep-All x ys h)

abbrev others : Text → List Text → List Text
others x xs = keep (λ e. not (text_eq e x)) xs

All-mem : {x : Text} (P : Text → Type 0) (xs : List Text) → All P xs → Memᴰ x xs → P x
All-mem P [] h m = absurd (Memᴰ.not-nil m)
All-mem P (y ∷ ys) (p, h) (Memᴰ.head e) = subst P (sym e) p
All-mem P (y ∷ ys) (p, h) (Memᴰ.tail m) = All-mem P ys h m

text_eq_comm : (s t : Text) → text_eq s t ≡ false → text_eq t s ≡ false
text_eq_comm s t h = ground (arith, text_eq_iff s t, text_eq_iff t s)

others-perm :
    (xs : List Text) (x : Text) → Distinct xs → Memᴰ x xs → Perm (others x xs ++ x ∷ []) xs
others-perm [] x d m = absurd (Memᴰ.not-nil m)
others-perm (y ∷ ys) x (far, d) (Memᴰ.head e) =
    subst (λ z. Perm (others z (y ∷ ys) ++ z ∷ []) (y ∷ ys)) (sym e)
      (rw (text_eq_refl y, keep-All y ys far) (perm_append_singleton y ys))
others-perm (y ∷ ys) x (far, d) (Memᴰ.tail m) =
    rw (text_eq_comm x y (All-mem (λ z. text_eq z y ≡ false) ys far m))
      (Perm.cons y (others-perm ys x d m))

find_leader-mem :
    (ask : Text → Status) (xs : List Text) (leader : Text)
    → find_leader ask xs ≡ some leader
    → Memᴰ leader xs × (leads (ask leader) ≡ true)
unfolding find_leader
find_leader-mem ask [] leader h = absurd (cc)
find_leader-mem ask (x ∷ xs) leader h = elim (Bool-cases (leads (ask x))) [
  | inl e ↦
      let same : x ≡ leader = ground arith in
      (Memᴰ.head (sym same), subst (λ l. leads (ask l) ≡ true) same e)
  | inr e ↦ let (m, l) = find_leader-mem ask xs leader (rw e at h) in (Memᴰ.tail m, l)
]

others-far : (x : Text) (xs : List Text) → All (λ y. text_eq y x ≡ false) (others x xs)
others-far x [] = tt
others-far x (y ∷ ys) = elim (Bool-cases (text_eq y x)) [
  | inl e ↦ rw e (others-far x ys)
  | inr e ↦ rw e (e, others-far x ys)
]

-- What a found leader means for the order.
abbrev pub LeaderLast : (Text → Status) → List Text → List Text → Type 0
LeaderLast ask eps order =
    (leader : Text)
    → find_leader ask eps ≡ some leader
    → is_empty leader ≡ false
    → (followers : List Text) × (order ≡ followers ++ leader ∷ [])
      × All (λ e. text_eq e leader ≡ false) followers
      × (leads (ask leader) ≡ true)

-- If the endpoints are distinct, each of them is defragmented exactly once, and a leader that was
-- found comes last, behind all others.
pub defrag_order-perm :
    (ask : Text → Status) (eps : List Text)
    → Distinct eps
    → Perm (defrag_order ask eps) eps × LeaderLast ask eps (defrag_order ask eps)
unfolding defrag_order
defrag_order-perm ask eps d = (
  elim (Option-cases (find_leader ask eps)) [
    | inl e ↦ rw (e, defrag_order) (Perm.refl eps)
    | inr (leader, e) ↦
        rw (e, defrag_order)
          (elim (Bool-cases (is_empty leader)) [
            | inl e' ↦ rw e' (Perm.refl eps)
            | inr named ↦ rw named (others-perm eps leader d (find_leader-mem ask eps leader e).0)
          ])
  ],
  λ leader e named. (
    others leader eps,
    rw (e, defrag_order, named),
    others-far leader eps,
    (find_leader-mem ask eps leader e).1,
  ),
)
