-- ===== src/Aws/Tags.antt =====
-- launch_group.go: maps of tags. A map of Go is a list of its keys with their values.
use etcd_infra.Common.{
  ◌≡◌, ◌↔◌, sym, if_true, if_false, refl, ap, ◌∙◌, Bool, true, false, not, ◌&&◌, ◌||◌, List, [],
  ◌∷◌, Option, none, some, arith, inl, inr, Bool-cases, if◌then◌else◌, is_empty, is_some, map, Text,
  codes, text_eq, text_eq_iff, text_eq_refl, sort, insert_sorted, text_leb,
}

unfoldable pub lookup : Text → List (Text × Text) → Option Text
lookup k [] = none
lookup k ((j, v) ∷ m) = if text_eq k j then some v else lookup k m

abbrev pub or_nothing : Option Text → Text
or_nothing none = []
or_nothing (some v) = v

abbrev same_value : Option Text → Text → Bool
same_value none v = false
same_value (some w) v = text_eq w v

unfoldable pub has_all_tags : List (Text × Text) → List (Text × Text) → Bool
unfolding lookup
has_all_tags got [] = true
has_all_tags got ((k, v) ∷ want) = same_value (lookup k got) v && has_all_tags got want

-- slices.Sorted(maps.Keys(m))
unfoldable pub sorted_keys : List (Text × Text) → List Text
unfolding sort
sorted_keys m = sort text_leb (map (λ e. e.0) m)

abbrev pub name_key : Text
name_key = codes "Name"

-- The tags with a default for the name
unfoldable pub with_name : List (Text × Text) → Text → List (Text × Text)
unfolding lookup
with_name tags name =
    if not (is_some (lookup name_key tags)) && not (is_empty name)
    then (name_key, name) ∷ tags
    else tags

unfoldable pub in_order : List (Text × Text) → List Text → List (Text × Text)
unfolding lookup
in_order m [] = []
in_order m (k ∷ ks) = (k, or_nothing (lookup k m)) ∷ in_order m ks

unfoldable pub ec2_tags : List (Text × Text) → Text → List (Text × Text)
unfolding with_name in_order sorted_keys
ec2_tags tags name = let merged = with_name tags name in in_order merged (sorted_keys merged)

-- The keys of a map are different from one another.
abbrev pub Distinct : List (Text × Text) → Type 0
Distinct [] = Unit
Distinct ((k, v) ∷ m) = (lookup k m ≡ none) × Distinct m

member : Text → List Text → Bool
member k [] = false
member k (j ∷ ks) = text_eq k j || member k ks

member-insert_sorted :
    (k j : Text) (ks : List Text)
    → member k (insert_sorted text_leb j ks) ≡ (text_eq k j || member k ks)
unfolding member insert_sorted
member-insert_sorted k j [] = refl
member-insert_sorted k j (i ∷ ks) = ground (arith, member-insert_sorted k j ks)

member-sort : (k : Text) (ks : List Text) → member k (sort text_leb ks) ≡ member k ks
unfolding member sort
member-sort k [] = refl
member-sort k (j ∷ ks) =
    member-insert_sorted k j (sort text_leb ks) ∙ ap (λ b. text_eq k j || b) (member-sort k ks)

member-keys :
    (k : Text) (m : List (Text × Text)) → member k (map (λ e. e.0) m) ≡ is_some (lookup k m)
unfolding member lookup
member-keys k [] = refl
member-keys k ((j, v) ∷ m) = ground (arith, member-keys k m)

lookup-in_order :
    (k : Text) (m : List (Text × Text)) (ks : List Text)
    → lookup k (in_order m ks) ≡ (if member k ks then some (or_nothing (lookup k m)) else none)
unfolding lookup in_order member
lookup-in_order k m [] = refl
lookup-in_order k m (j ∷ ks) = ground (arith, text_eq_iff k j, lookup-in_order k m ks)

-- The list of a map reads as the map.
lookup-sorted :
    (k : Text) (m : List (Text × Text)) → lookup k (in_order m (sorted_keys m)) ≡ lookup k m
unfolding sorted_keys
lookup-sorted k m =
    lookup-in_order k m (sorted_keys m)
    ∙ ap (λ b. if b then some (or_nothing (lookup k m)) else none)
        (member-sort k (map (λ e. e.0) m) ∙ member-keys k m)
    ∙ present (lookup k m)
  where
    present : (o : Option Text) → (if is_some o then some (or_nothing o) else none) ≡ o
    present none = refl
    present (some v) = refl

lookup-with_name :
    (k : Text) (tags : List (Text × Text)) (name : Text)
    → lookup k (with_name tags name) ≡ (
        if text_eq k name_key && not (is_some (lookup k tags)) && not (is_empty name)
        then some name
        else lookup k tags)
unfolding with_name lookup
lookup-with_name k tags name = elim (Bool-cases (text_eq k name_key)) [
  | inl e ↦
      let same : k ≡ name_key = (text_eq_iff k name_key).0 e in
      rw (same, text_eq_refl name_key) (ground (arith, text_eq_refl name_key))
  | inr e ↦ ground (arith, e)
]

-- What the tags of a resource are: those of the specification, and the name where these have none.
pub lookup-ec2_tags :
    (k : Text) (tags : List (Text × Text)) (name : Text)
    → lookup k (ec2_tags tags name) ≡ (
        if text_eq k name_key && not (is_some (lookup k tags)) && not (is_empty name)
        then some name
        else lookup k tags)
unfolding ec2_tags
lookup-ec2_tags k tags name = lookup-sorted k (with_name tags name) ∙ lookup-with_name k tags name

-- A map that has all entries of another has all of its tags.
has_all_tags-of_lookup :
    (got want : List (Text × Text))
    → Distinct want
    → ((k v : Text) → lookup k want ≡ some v → lookup k got ≡ some v)
    → has_all_tags got want ≡ true
unfolding has_all_tags lookup
has_all_tags-of_lookup got [] d h = refl
has_all_tags-of_lookup got ((k, v) ∷ want) d h =
    let there : lookup k got ≡ some v = h k v (rw (text_eq_refl k) refl) in
    rw (there, text_eq_refl v)
      (has_all_tags-of_lookup got want d.1
        (λ k' v' p. h k' v' (ground (arith, text_eq_iff k' k, d.0, p))))

-- One map has every entry of another.
abbrev pub Carries : List (Text × Text) → List (Text × Text) → Type 0
Carries got want = (k v : Text) → lookup k want ≡ some v → lookup k got ≡ some v

same_value-some : (o : Option Text) (v : Text) → same_value o v ≡ true → o ≡ some v
same_value-some none v h = absurd (cc)
same_value-some (some w) v h = ap some ((text_eq_iff w v).0 h)

has_all_tags-Carries :
    (got want : List (Text × Text)) → has_all_tags got want ≡ true → Carries got want
unfolding has_all_tags lookup
has_all_tags-Carries got [] h k v p = absurd (cc)
has_all_tags-Carries got ((j, u) ∷ want) h k v p =
    let there : lookup j got ≡ some u = same_value-some (lookup j got) u (ground (arith, h)) in
    let rest = has_all_tags-Carries got want (ground (arith, h)) k v in
    elim (Bool-cases (text_eq k j)) [
      | inl e ↦
          let key : k ≡ j = (text_eq_iff k j).0 e in
          let value : some u ≡ some v =
            sym (if_true (text_eq k j) (some u) (lookup k want) e) ∙ p in
          ap (λ i. lookup i got) key ∙ there ∙ value
      | inr e ↦ rest (sym (if_false (text_eq k j) (some u) (lookup k want) e) ∙ p)
    ]

pub has_all_tags_iff :
    (got want : List (Text × Text))
    → Distinct want
    → (has_all_tags got want ≡ true) ↔ Carries got want
has_all_tags_iff got want d = (has_all_tags-Carries got want, has_all_tags-of_lookup got want d)

-- The list of a map carries the map.
pub in_order-Carries : (m : List (Text × Text)) → Carries (in_order m (sorted_keys m)) m
in_order-Carries m k v p = lookup-sorted k m ∙ p

-- What is created with the tags of a specification has all of them, so that a repeated creation of
-- the same specification takes the resource for its own.
pub has_all_tags-ec2_tags :
    (tags : List (Text × Text)) (name : Text)
    → Distinct tags
    → has_all_tags (ec2_tags tags name) tags ≡ true
has_all_tags-ec2_tags tags name d =
    has_all_tags-of_lookup (ec2_tags tags name) tags d
      (λ k v p. lookup-ec2_tags k tags name ∙ ground (arith, p))
