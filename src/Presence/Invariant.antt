-- ===== src/Presence/Invariant.antt =====
-- The lock-step of the presence store: the counts per caller are those of the table, and neither the
-- table nor the tombstones outgrow their cap. The two writers keep it.
use dee_relay.Base.{
  ℕ, ◌+◌, ◌≤◌, ◌≡◌, ◌==◌, Bool, Option, none, some, [], ◌∷◌, String, string_key, length, arith,
  Option-cases, inl, inr, if_both,
}
use dee_relay.Map.{
  Map, lookup, insert, remove, lookup-insert, lookup-remove, Distinct, Distinct-insert,
  Distinct-remove,
}
use dee_relay.Map.Count.{count, count-insert, count-remove, length-insert, length-remove, is_held}
use dee_relay.Map.Counter.{
  Counts, bump, drop_one, bump-Counts, drop_one-Counts, Distinct-bump, Distinct-drop_one,
}
use dee_relay.Model.{Time, after, PresenceRevocation}
use dee_relay.Presence.Table.{
  Store, Record, put_locked, drop_locked, release_previous, drop_where, drop_dead, is_stale,
  prune_locked,
}

abbrev pub of_caller : String → Record → Bool
of_caller caller item = item.caller == caller

-- A record stands under its own grant hash.
abbrev pub IsFiled : String → Option Record → Type 0
IsFiled key none = Unit
IsFiled key (some item) = item.grant_hash ≡ key

pub record InStep (s : Store) : Type 0 where
  pub distinct_records : Distinct s.records
  pub distinct_callers : Distinct s.callers
  pub distinct_revocations : Distinct s.revocations
  pub callers :
      (caller : String) → Counts (lookup caller s.callers) (count (of_caller caller) s.records)
  pub filed : (key : String) → IsFiled key (lookup key s.records)
  pub few_records : length s.records ≤ s.max_records
  pub few_revocations : length s.revocations ≤ s.max_records

module _ {s : Store} (v : InStep s) where
  dropped :
      (key : String) (item : Record)
      → lookup key s.records ≡ some item
      → InStep
          (record s { records = remove key s.records; callers = drop_one item.caller s.callers })
  dropped key item e = record {
    distinct_records = Distinct-remove key s.records v.distinct_records;
    distinct_callers = Distinct-drop_one item.caller s.callers v.distinct_callers;
    distinct_revocations = v.distinct_revocations;
    callers = λ c.
        drop_one-Counts s.callers item.caller c (count (of_caller c) (remove key s.records)) (
          ground (arith, v.callers c, count-remove (of_caller c) key s.records v.distinct_records));
    filed = λ j. ground (arith, v.filed j, lookup-remove key j s.records);
    few_records = omega (arith, v.few_records, length-remove key s.records v.distinct_records);
    few_revocations = v.few_revocations;
  }

  pub drop_locked-InStep : (key : String) → InStep (drop_locked s key)
  unfolding drop_locked
  drop_locked-InStep key = elim (Option-cases (lookup key s.records)) [
    | inl e ↦ rw (e, drop_locked) v
    | inr (item, e) ↦ rw (e, drop_locked) (dropped key item e)
  ]

  -- A record goes in over the one that it replaces, or where there is room.
  pub put_locked-InStep :
      (r : Record)
      → length s.records + 1 ≤ s.max_records + is_held (lookup r.grant_hash s.records)
      → InStep (put_locked s r)
  unfolding put_locked release_previous
  put_locked-InStep r room = record {
    distinct_records = Distinct-insert r.grant_hash r s.records v.distinct_records;
    distinct_callers = distinct;
    distinct_revocations = v.distinct_revocations;
    callers = counted;
    filed = λ j. ground (arith, v.filed j, lookup-insert r.grant_hash j r s.records);
    few_records = omega (arith, room, length-insert r.grant_hash r s.records);
    few_revocations = v.few_revocations;
  }
    where
      distinct : Distinct (bump r.caller (release_previous s r.grant_hash))
      distinct = elim (Option-cases (lookup r.grant_hash s.records)) [
        | inl e ↦ rw (e, release_previous) (Distinct-bump r.caller s.callers v.distinct_callers)
        | inr (old, e) ↦
            rw (e, release_previous)
              (Distinct-bump r.caller (drop_one old.caller s.callers)
                (Distinct-drop_one old.caller s.callers v.distinct_callers))
      ]

      counted :
          (c : String)
          → Counts
              (lookup c (bump r.caller (release_previous s r.grant_hash)))
              (count (of_caller c) (insert r.grant_hash r s.records))
      counted c = elim (Option-cases (lookup r.grant_hash s.records)) [
        | inl e ↦
            rw (e, release_previous)
              (ground (
                arith,
                e,
                count-insert (of_caller c) r.grant_hash r s.records,
                bump-Counts s.callers r.caller c (count (of_caller c) s.records) (v.callers c),
              ))
        | inr (old, e) ↦
            let n = count (of_caller c) (remove r.grant_hash s.records) in
            let gone = count-remove (of_caller c) r.grant_hash s.records v.distinct_records in
            let left =
              drop_one-Counts s.callers old.caller c n (ground (arith, e, v.callers c, gone)) in
            rw (e, release_previous)
              (ground (
                arith,
                e,
                gone,
                count-insert (of_caller c) r.grant_hash r s.records,
                bump-Counts (drop_one old.caller s.callers) r.caller c n left,
              ))
      ]

-- A store whose tombstones alone were changed.
pub revocations-InStep :
    {s : Store} (m : Map String PresenceRevocation)
    → Distinct m
    → length m ≤ s.max_records
    → InStep s
    → InStep (record s { revocations = m })
revocations-InStep m distinct few v = record {
  distinct_records = v.distinct_records;
  distinct_callers = v.distinct_callers;
  distinct_revocations = distinct;
  callers = v.callers;
  filed = v.filed;
  few_records = v.few_records;
  few_revocations = few;
}

pub drop_where-InStep :
    (p : Record → Bool) (m : Map String Record) (s : Store) (n : ℕ)
    → InStep s
    → InStep (drop_where p m (s, n)).0
unfolding drop_where
drop_where-InStep p [] s n v = v
drop_where-InStep p ((key, item) ∷ m) s n v =
    if_both (λ (r : Store × ℕ). InStep (drop_where p m r).0) (p item)
      (drop_where-InStep p m (drop_locked s key) (n + 1) (drop_locked-InStep v key))
      (drop_where-InStep p m s n v)

drop_dead-InStep :
    (now : Time) (m : Map String PresenceRevocation) (s : Store)
    → InStep s
    → InStep (drop_dead now m s)
unfolding drop_dead
drop_dead-InStep now [] s v = v
drop_dead-InStep now ((key, item) ∷ m) s v =
    if_both (λ (t : Store). InStep (drop_dead now m t)) (after item.expires_at now)
      (drop_dead-InStep now m s v)
      (drop_dead-InStep now m (record s { revocations = remove key s.revocations })
        (revocations-InStep (remove key s.revocations)
          (Distinct-remove key s.revocations v.distinct_revocations)
          (omega (arith, v.few_revocations, length-remove key s.revocations v.distinct_revocations))
          v))

pub prune_locked-InStep : (now : Time) {s : Store} → InStep s → InStep (prune_locked now s)
unfolding prune_locked
prune_locked-InStep now {s} v =
    let t = (drop_where (is_stale s now) s.records (s, 0)).0 in
    drop_dead-InStep now t.revocations t (drop_where-InStep (is_stale s now) s.records s 0 v)
