-- ===== src/Presence/Run.antt =====
-- The presence store over any history of calls: every operation keeps the lock-step.
use dee_relay.Base.{
  ◌+◌, ◌≤◌, ◌≡◌, inl, inr, refl, Bool, true, false, none, some, List, [], ◌∷◌, String, string_key,
  length, arith, Option-cases, if_both, ℤ, ap, Bool-cases, not, ◌&&◌, ◌||◌, leb, is_empty,
}
use dee_relay.Map.{lookup, insert, remove, Distinct-insert, Distinct-remove, has}
use dee_relay.Map.Count.{is_held, length-insert, length-remove, count}
use dee_relay.Model.{after, Time, PresenceHeartbeat, PresenceRevocation}
use dee_relay.Presence.Table.{Store, Record, Grant, new_store, drop_locked, prune}
use dee_relay.Presence.Beats.{
  make_room_locked, seat, admit, record_of, heartbeat_with_grant, heartbeat, import, trim_beat,
}
use dee_relay.Presence.Lists.{query, snapshot, revocations_of, count_records}
use dee_relay.Presence.Revoke.{
  revoke, store_revocation_locked, import_revocation, import_revocations, is_revoked,
  takes_revocation,
}
use dee_relay.Presence.Invariant.{
  InStep, drop_locked-InStep, put_locked-InStep, revocations-InStep, drop_where-InStep,
  prune_locked-InStep,
}
use dee_relay.Presence.Outcomes.{RoomOutcome, make_room_locked-RoomOutcome, seat_known, seat_new}

new_store-InStep : (max_records ttl : ℤ) → InStep (new_store max_records ttl)
unfolding new_store lookup count
new_store-InStep max_records ttl = record {
  distinct_records = tt;
  distinct_callers = tt;
  distinct_revocations = tt;
  callers = λ caller. refl;
  filed = λ key. tt;
  few_records = omega arith;
  few_revocations = omega arith;
}

module _ {s : Store} (now : Time) (v : InStep s) where
  evicted_room :
      (key : String) (item : Record)
      → lookup key s.records ≡ some item
      → length (drop_locked s key).records + 1 ≤ (drop_locked s key).max_records
  unfolding drop_locked
  evicted_room key item e =
      rw (e, drop_locked)
        (ground (arith, e, v.few_records, length-remove key s.records v.distinct_records))

  new_seat-InStep :
      (r : Record)
      → lookup r.grant_hash s.records ≡ none
      → RoomOutcome s now r.caller (make_room_locked s now r.caller)
      → InStep (seat s now r).0
  new_seat-InStep r e (inl (room, got, same)) =
      rw (seat_new s now r s true e same got) (put_locked-InStep v r (omega (arith, room)))
  new_seat-InStep r e (inr (inl (full, share, (w, ((item, found, _, _, _), _), got, same)))) =
      rw (seat_new s now r (drop_locked s w.key) true e same got) (
        put_locked-InStep (drop_locked-InStep v w.key) r
          (omega (arith, evicted_room w.key item found)))
  new_seat-InStep r e (inr (inr (full, why, no_room, same))) =
      rw (seat_new s now r s false e same no_room) v

  seat-InStep : (r : Record) → InStep (seat s now r).0
  seat-InStep r = elim (Option-cases (lookup r.grant_hash s.records)) [
    | inl e ↦ new_seat-InStep r e (make_room_locked-RoomOutcome s now r.caller v.distinct_records)
    | inr (old, e) ↦
        rw (seat_known s now r old e)
          (put_locked-InStep v r (omega (arith, v.few_records, ap is_held e)))
  ]

without_revocation :
    {s : Store} (owner : String)
    → InStep s
    → InStep (record s { revocations = remove owner s.revocations })
without_revocation {s} owner v =
    revocations-InStep (remove owner s.revocations)
      (Distinct-remove owner s.revocations v.distinct_revocations)
      (omega (arith, v.few_revocations, length-remove owner s.revocations v.distinct_revocations)) v

abbrev LeavesInStep : Store × Bool → Type 0
LeavesInStep r = InStep r.0

admit-InStep :
    (s : Store) (now : Time) (caller : String) (value : PresenceHeartbeat)
    → InStep s
    → InStep (admit s now caller value).0
unfolding admit
admit-InStep s now caller value v = elim (Option-cases (lookup value.owner_hash s.revocations)) [
  | inl e ↦ rw (e, admit) (seat-InStep now v (record_of now caller value))
  | inr (revoked, e) ↦
      rw (e, admit)
        (if_both LeavesInStep _ v
          (seat-InStep now (without_revocation value.owner_hash v) (record_of now caller value)))
]

pub heartbeat_with_grant-InStep :
    (s : Store) (now : Time) (value : PresenceHeartbeat) (grant : Grant)
    → InStep s
    → InStep (heartbeat_with_grant s now value grant).0
unfolding heartbeat_with_grant
heartbeat_with_grant-InStep s now value grant v =
    if_both LeavesInStep _ v
      (admit-InStep _ now _ (trim_beat now value) (prune_locked-InStep now v))

pub import-InStep :
    (values : List (Time × PresenceHeartbeat)) (s : Store) → InStep s → InStep (import s values)
unfolding import heartbeat
import-InStep [] s v = v
import-InStep ((now, value) ∷ values) s v =
    import-InStep values (heartbeat s now value).0
      (heartbeat_with_grant-InStep s now value (record { caller = "" }) v)

-- A tombstone over the one that it replaces, or where there is room.
revocation_in :
    {s : Store} (value : PresenceRevocation)
    → length s.revocations + 1 ≤ s.max_records + is_held (lookup value.owner_hash s.revocations)
    → InStep s
    → InStep (record s { revocations = insert value.owner_hash value s.revocations })
revocation_in {s} value room v =
    revocations-InStep (insert value.owner_hash value s.revocations)
      (Distinct-insert value.owner_hash value s.revocations v.distinct_revocations)
      (omega (arith, room, length-insert value.owner_hash value s.revocations)) v

store_revocation_locked-InStep :
    {s : Store} (value : PresenceRevocation) → InStep s → InStep (store_revocation_locked s value)
unfolding store_revocation_locked has
store_revocation_locked-InStep {s} value v =
    elim (Bool-cases
      (not (has value.owner_hash s.revocations) && leb s.max_records (length s.revocations))) [
        | inl e ↦ rw (e, store_revocation_locked) v
        | inr e ↦ rw (e, store_revocation_locked) (revocation_in value (ground (arith, e, known)) v)
      ]
  where
    known :
        has value.owner_hash s.revocations ≡ true
        → is_held (lookup value.owner_hash s.revocations) ≡ 1
    known h = ground (arith, h)

pub revoke-InStep :
    (s : Store) (now : Time) (owner_hash : String) → InStep s → InStep (revoke s now owner_hash).0
unfolding revoke
revoke-InStep s now owner_hash v =
    store_revocation_locked-InStep _ (drop_where-InStep _ s.records s 0 v)

import_revocation-InStep :
    (now : Time) (value : PresenceRevocation) (s : Store)
    → InStep s
    → InStep (import_revocation now value s)
unfolding import_revocation takes_revocation
import_revocation-InStep now value s v =
    if_both InStep (is_empty value.owner_hash || not (after value.expires_at now)) v
      (elim (Bool-cases (takes_revocation s value)) [
        | inl e ↦
            rw (e, import_revocation)
              (let t : Store = record s {
                revocations = insert value.owner_hash value s.revocations;
              } in
                drop_where-InStep (is_revoked value) s.records t 0
                  (revocation_in value (ground (arith, e, v.few_revocations)) v))
        | inr e ↦ rw (e, import_revocation) v
      ])

pub import_revocations-InStep :
    (now : Time) (values : List PresenceRevocation) (s : Store)
    → InStep s
    → InStep (import_revocations s now values)
unfolding import_revocations
import_revocations-InStep now [] s v = v
import_revocations-InStep now (value ∷ values) s v =
    import_revocations-InStep now values (import_revocation now value s)
      (import_revocation-InStep now value s v)

-- The calls of the handlers, the replication loop and the pruning ticker.
pub data Call : Type 0 where
  beats : PresenceHeartbeat → Grant → Call
  asks : List String → Call
  revokes : String → Call
  prunes : Call
  counts : Call
  lists : Call
  lists_revocations : Call
  imports : List (Time × PresenceHeartbeat) → Call
  imports_revocations : List PresenceRevocation → Call

unfoldable pub step : Store → Time × Call → Store
step s (now, beats value grant) = (heartbeat_with_grant s now value grant).0
step s (now, asks grants) = (query s now grants).0
step s (now, revokes owner_hash) = (revoke s now owner_hash).0
step s (now, prunes) = prune s now
step s (now, counts) = (count_records s now).0
step s (now, lists) = (snapshot s now).0
step s (now, lists_revocations) = (revocations_of s now).0
step s (now, imports values) = import s values
step s (now, imports_revocations values) = import_revocations s now values

unfoldable pub run : Store → List (Time × Call) → Store
unfolding step
run s [] = s
run s (c ∷ cs) = run (step s c) cs

step-InStep : (s : Store) (c : Time × Call) → InStep s → InStep (step s c)
unfolding step query count_records snapshot revocations_of prune
step-InStep s (now, beats value grant) v = heartbeat_with_grant-InStep s now value grant v
step-InStep s (now, asks grants) v = prune_locked-InStep now v
step-InStep s (now, revokes owner_hash) v = revoke-InStep s now owner_hash v
step-InStep s (now, prunes) v = prune_locked-InStep now v
step-InStep s (now, counts) v = prune_locked-InStep now v
step-InStep s (now, lists) v = prune_locked-InStep now v
step-InStep s (now, lists_revocations) v = prune_locked-InStep now v
step-InStep s (now, imports values) v = import-InStep values s v
step-InStep s (now, imports_revocations values) v = import_revocations-InStep now values s v

pub run-InStep : (s : Store) (cs : List (Time × Call)) → InStep s → InStep (run s cs)
unfolding run
run-InStep s [] v = v
run-InStep s (c ∷ cs) v = run-InStep (step s c) cs (step-InStep s c v)

-- From a new store, whatever its caps, every history of calls leaves the count of each caller equal to
-- the number of its records, every record under its own grant hash, and the table and the tombstones
-- within the cap.
pub run-new_store-InStep :
    (max_records ttl : ℤ) (cs : List (Time × Call)) → InStep (run (new_store max_records ttl) cs)
run-new_store-InStep max_records ttl cs =
    run-InStep (new_store max_records ttl) cs (new_store-InStep max_records ttl)
