-- ===== src/Presence/Drops.antt =====
-- What a prune and a revocation leave of the leases in the table.
use dee_relay.Base.{
  ℕ, ◌+◌, ◌≤◌, ◌<◌, ◌≡◌, ◌⊎◌, ◌==◌, inl, inr, refl, Bool, none, some, [], ◌∷◌, String, string_key,
  length, arith, Option-cases, trim_space, ◌∙◌, if_both, if◌then◌else◌,
}
use dee_relay.Map.{Map, lookup, get_or, has, remove, lookup-remove, lookup-insert}
use dee_relay.Map.Count.{count, count-remove, is_held}
use dee_relay.Map.Keep.{keep_unless, passes, passes-lookup}
use dee_relay.Model.{Time, PresenceRevocation}
use dee_relay.Presence.Table.{
  Store, Record, drop_locked, drop_where, drop_dead, is_stale, prune_locked,
}
use dee_relay.Presence.Revoke.{revoke, is_of_owner, store_revocation_locked}
use dee_relay.Presence.Invariant.{InStep, of_caller, drop_locked-InStep, prune_locked-InStep}

records-drop_locked :
    (s : Store) (key j : String)
    → lookup j (drop_locked s key).records ≡ (if key == j then none else lookup j s.records)
unfolding drop_locked
records-drop_locked s key j = elim (Option-cases (lookup key s.records)) [
  | inl e ↦ rw (e, drop_locked) (ground (arith, e))
  | inr (item, e) ↦ rw (e, drop_locked) (ground (arith, lookup-remove key j s.records))
]

same-drop_locked :
    (s : Store) (key : String)
    → ((drop_locked s key).revocations ≡ s.revocations)
      × ((drop_locked s key).max_records ≡ s.max_records)
      × ((drop_locked s key).last_seen_ttl ≡ s.last_seen_ttl)
unfolding drop_locked
same-drop_locked s key = elim (Option-cases (lookup key s.records)) [
  | inl e ↦ rw (e, drop_locked) (refl, refl, refl)
  | inr (item, e) ↦ rw (e, drop_locked) (refl, refl, refl)
]

count-drop_locked :
    (q : Record → Bool) (s : Store) (key : String)
    → InStep s
    → count q (drop_locked s key).records ≤ count q s.records
unfolding drop_locked
count-drop_locked q s key v = elim (Option-cases (lookup key s.records)) [
  | inl e ↦ rw (e, drop_locked) (omega arith)
  | inr (item, e) ↦
      rw (e, drop_locked) (omega (arith, count-remove q key s.records v.distinct_records))
]

module _ (p : Record → Bool) where
  lookup-drop_where :
      (m : Map String Record) (s : Store) (n : ℕ) (j : String)
      → lookup j (drop_where p m (s, n)).0.records
        ≡ (if passes p j m then none else lookup j s.records)
  unfolding drop_where
  lookup-drop_where [] s n j = refl
  lookup-drop_where ((key, item) ∷ m) s n j = ground (
    arith,
    lookup-drop_where m s n j,
    lookup-drop_where m (drop_locked s key) (n + 1) j,
    records-drop_locked s key j,
  )

  number-drop_where :
      (m : Map String Record) (s : Store) (n : ℕ) → (drop_where p m (s, n)).1 ≡ n + count p m
  unfolding drop_where count
  number-drop_where [] s n = omega arith
  number-drop_where ((key, item) ∷ m) s n =
      ground (arith, number-drop_where m s n, number-drop_where m (drop_locked s key) (n + 1))

  same-drop_where :
      (m : Map String Record) (s : Store) (n : ℕ)
      → ((drop_where p m (s, n)).0.revocations ≡ s.revocations)
        × ((drop_where p m (s, n)).0.max_records ≡ s.max_records)
        × ((drop_where p m (s, n)).0.last_seen_ttl ≡ s.last_seen_ttl)
  unfolding drop_where
  same-drop_where [] s n = (refl, refl, refl)
  same-drop_where ((key, item) ∷ m) s n = ground (
    arith,
    same-drop_where m s n,
    same-drop_where m (drop_locked s key) (n + 1),
    same-drop_locked s key,
  )

  count-drop_where :
      (q : Record → Bool) (m : Map String Record) (s : Store) (n : ℕ)
      → InStep s
      → count q (drop_where p m (s, n)).0.records ≤ count q s.records
  unfolding drop_where
  count-drop_where q [] s n v = omega arith
  count-drop_where q ((key, item) ∷ m) s n v =
      if_both (λ (r : Store × ℕ). count q (drop_where p m r).0.records ≤ count q s.records) (p item)
        (omega (
          arith,
          count-drop_where q m (drop_locked s key) (n + 1) (drop_locked-InStep v key),
          count-drop_locked q s key v,
        ))
        (count-drop_where q m s n v)

-- What a revocation leaves, and answers.
pub record IsRevoked (owner : String) (now : Time) (s : Store) (r : Store × ℕ) : Type 0 where
  pub records :
      (key : String)
      → lookup key (r.0).records ≡ keep_unless (is_of_owner owner) (lookup key s.records)
  pub number : r.1 ≡ count (is_of_owner owner) s.records
  pub tombstone :
      (length s.revocations < s.max_records) ⊎ (is_held (lookup owner s.revocations) ≡ 1)
      → lookup owner (r.0).revocations
        ≡ some (record { owner_hash = owner; updated_at = now; expires_at = now + s.last_seen_ttl })

stored :
    (t : Store) (value : PresenceRevocation)
    → (length t.revocations < t.max_records) ⊎ (is_held (lookup value.owner_hash t.revocations) ≡ 1)
    → lookup value.owner_hash (store_revocation_locked t value).revocations ≡ some value
unfolding store_revocation_locked has
stored t value room =
    ground (arith, lookup-insert value.owner_hash value.owner_hash value t.revocations)

records-store_revocation_locked :
    (t : Store) (value : PresenceRevocation) → (store_revocation_locked t value).records ≡ t.records
unfolding store_revocation_locked
records-store_revocation_locked t value = ground arith

-- In a store in lock-step, a revocation drops the leases of the owner and no other, answers how many they were, and leaves its
-- tombstone where the owner has one already or the map has room.
pub revoke-IsRevoked :
    (s : Store) (now : Time) (owner_hash : String)
    → InStep s
    → IsRevoked (trim_space owner_hash) now s (revoke s now owner_hash)
unfolding revoke
revoke-IsRevoked s now owner_hash v = record {
  records = λ key. rw (records-store_revocation_locked t value) (
      lookup-drop_where (is_of_owner owner) s.records s 0 key
      ∙ passes-lookup (is_of_owner owner) key s.records v.distinct_records);
  number = omega (arith, number-drop_where (is_of_owner owner) s.records s 0);
  tombstone = λ room.
      let (revocations, cap, ttl) = same-drop_where (is_of_owner owner) s.records s 0 in
      stored t value (rw (revocations, cap) room);
}
  where
    owner : String
    owner = trim_space owner_hash

    t : Store
    t = (drop_where (is_of_owner owner) s.records (s, 0)).0

    value : PresenceRevocation
    value = record { owner_hash = owner; updated_at = now; expires_at = now + s.last_seen_ttl }

same-drop_dead :
    (now : Time) (m : Map String PresenceRevocation) (s : Store)
    → ((drop_dead now m s).records ≡ s.records)
      × ((drop_dead now m s).callers ≡ s.callers)
      × ((drop_dead now m s).max_records ≡ s.max_records)
unfolding drop_dead
same-drop_dead now [] s = (refl, refl, refl)
same-drop_dead now ((key, item) ∷ m) s = ground (
  arith,
  same-drop_dead now m s,
  same-drop_dead now m (record s { revocations = remove key s.revocations }),
)

-- A prune drops the leases that were last seen too long ago, and no other.
pub lookup-prune_locked :
    (now : Time) (s : Store) (key : String)
    → InStep s
    → lookup key (prune_locked now s).records ≡ keep_unless (is_stale s now) (lookup key s.records)
unfolding prune_locked
lookup-prune_locked now s key v =
    let t = (drop_where (is_stale s now) s.records (s, 0)).0 in
    rw ((same-drop_dead now t.revocations t).0) (
      lookup-drop_where (is_stale s now) s.records s 0 key
      ∙ passes-lookup (is_stale s now) key s.records v.distinct_records)

count-prune_locked :
    (q : Record → Bool) (now : Time) (s : Store)
    → InStep s
    → count q (prune_locked now s).records ≤ count q s.records
unfolding prune_locked
count-prune_locked q now s v =
    let t = (drop_where (is_stale s now) s.records (s, 0)).0 in
    rw ((same-drop_dead now t.revocations t).0)
      (count-drop_where (is_stale s now) q s.records s 0 v)

pub share-prune_locked :
    (caller : String) (now : Time) (s : Store)
    → InStep s
    → get_or 0 caller (prune_locked now s).callers ≤ count (of_caller caller) s.records
unfolding get_or
share-prune_locked caller now s v = ground (
  arith,
  (prune_locked-InStep now v).callers caller,
  count-prune_locked (of_caller caller) now s v,
)
