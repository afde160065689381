-- ===== src/Stress/Maintenance/Leases.antt =====
-- scenario_k8s_mixed_size_maintenance.go: ttlLeasePool, with a lease for each ten seconds.
use mathlib.Core.List.{Memᴰ}
use mathlib.Core.List.Memᴰ
use etcd_infra.Common.{
  ℕ, ◌-◌, ◌*◌, ◌≡◌, ◌≢◌, refl, sym, ap, subst, ◌∙◌, append-nil, append_assoc, ◌⊎◌, inl, inr, not,
  ◌&&◌, List, [], ◌∷◌, ◌++◌, Option, none, some, arith, Bool-cases, if◌then◌else◌, ltb, ◌==◌, All,
  All-append, All-imp,
}

-- The lease at hand (0 for none), when it was granted (nanoseconds), and all the leases granted.
pub record LeasePool : Type 0 where
  pub id : ℕ
  pub since : ℕ
  pub issued : List ℕ

unfoldable pub new_lease_pool : LeasePool
new_lease_pool = record { id = 0; since = 0; issued = [] }

abbrev pub window : ℕ
window = 10 * 1_000_000_000

-- etcd's answer to a grant: an error, or the ID of the lease and the time when it came.
pub data Grant : Type 0 where
  refused : Grant
  granted : ℕ → ℕ → Grant

abbrev take_grant : LeasePool → Grant → LeasePool × Option ℕ
take_grant p refused = (p, none)
take_grant p (granted id now) =
    (record { id = id; since = now; issued = p.issued ++ id ∷ [] }, some id)

-- ttlLeasePool.current, called at `now`; without an ID it fails
unfoldable pub current : ℕ → Grant → LeasePool → LeasePool × Option ℕ
current now grant p =
    if not (p.id == 0) && ltb (now - p.since) window then (p, some p.id) else take_grant p grant

-- ttlLeasePool.revokeAll revokes these leases.
abbrev pub revoked : LeasePool → List ℕ
revoked p = p.issued

abbrev handed : Option ℕ → List ℕ
handed none = []
handed (some id) = id ∷ []

-- A series of calls, with the leases that it handed out.
unfoldable pub hand_out : List (ℕ × Grant) → LeasePool → LeasePool × List ℕ
unfolding current
hand_out [] p = (p, [])
hand_out ((now, grant) ∷ calls) p =
    let (p', got) = current now grant p in
    let (p'', rest) = hand_out calls p' in (p'', handed got ++ rest)

abbrev In : List ℕ → ℕ → Type 0
In issued id = Memᴰ id issued

-- The lease at hand was granted.
abbrev Tracked : LeasePool → Type 0
Tracked p = (p.id ≡ 0) ⊎ In p.issued p.id

-- One call: the leases granted before stay, the lease at hand is tracked, and so is the one handed out.
abbrev Kept : LeasePool → LeasePool × Option ℕ → Type 0
Kept p r =
    ((extra : List ℕ) × (r.0.issued ≡ p.issued ++ extra))
    × Tracked r.0
    × All (In r.0.issued) (handed r.1)

current-Kept : (now : ℕ) (grant : Grant) (p : LeasePool) → Tracked p → Kept p (current now grant p)
unfolding current
current-Kept now grant p t = elim (Bool-cases (not (p.id == 0) && ltb (now - p.since) window)) [
  | inl e ↦ rw e (([], sym (append-nil p.issued)), t, (held t (ground arith), tt))
  | inr e ↦ rw e (taken grant)
]
  where
    held : Tracked p → p.id ≢ 0 → In p.issued p.id
    held (inl z) h = absurd (h z)
    held (inr m) h = m

    taken : (g : Grant) → Kept p (take_grant p g)
    taken refused = (([], sym (append-nil p.issued)), t, tt)
    taken (granted id at) =
        let m = Memᴰ.append_right p.issued (Memᴰ.head refl) in ((id ∷ [], refl), inr m, (m, tt))

hand_out-kept :
    (calls : List (ℕ × Grant)) (p : LeasePool)
    → Tracked p
    → ((extra : List ℕ) × ((hand_out calls p).0.issued ≡ p.issued ++ extra))
      × All (In (hand_out calls p).0.issued) (hand_out calls p).1
unfolding hand_out
hand_out-kept [] p t = (([], sym (append-nil p.issued)), tt)
hand_out-kept ((now, grant) ∷ calls) p t =
    let ((extra, e), t', got) = current-Kept now grant p t in
    let q = (current now grant p).0 in
    let final = (hand_out calls q).0.issued in
    let ((more, e'), rest) = hand_out-kept calls q t' in
    let kept =
      λ (id : ℕ) (m : In q.issued id). subst (λ l. Memᴰ id l) (sym e') (Memᴰ.append_left more m) in
    (
      (extra ++ more, e' ∙ ap (λ l. l ++ more) e ∙ append_assoc p.issued extra more),
      All-append (In final) (handed (current now grant p).1) (hand_out calls q).1
          (All-imp (handed (current now grant p).1) kept got) rest,
    )

-- Every lease that the pool hands out, whatever etcd grants and when, is among those that the pool
-- revokes at the end.
pub hand_out-revoked :
    (calls : List (ℕ × Grant))
    → let (p, leases) = hand_out calls new_lease_pool in All (λ id. Memᴰ id (revoked p)) leases
unfolding new_lease_pool
hand_out-revoked calls = (hand_out-kept calls _ (inl refl)).1
