-- ===== src/Presence/Leases.antt =====
-- HeartbeatWithGrant on all its branches, and the leases that it cannot take away.
use dee_relay.Base.{
  ◌+◌, ◌≤◌, ◌≡◌, ◌≢◌, ◌⊎◌, inl, inr, refl, Bool, true, false, none, some, String, string_key, arith,
  Option-cases, Bool-cases, trim_space, ◌∙◌, ap, if◌then◌else◌, sym, not,
}
use dee_relay.Map.{Map, lookup, get_or, remove, remove_absent}
use dee_relay.Map.Count.{count, held}
use dee_relay.Model.{Time, after, PresenceHeartbeat, PresenceRevocation}
use dee_relay.Presence.Table.{Store, Record, Grant, is_stale, prune_locked, max_records_per_caller}
use dee_relay.Presence.Beats.{
  rank_of, seat, admit, record_of, heartbeat_with_grant, trim_beat, is_refused_beat,
}
use dee_relay.Presence.Invariant.{InStep, of_caller, prune_locked-InStep}
use dee_relay.Presence.Outcomes.{SeatOutcome, seat-SeatOutcome}
use dee_relay.Presence.Drops.{lookup-prune_locked, share-prune_locked}

-- A lease inside its share is strong.
strong :
    (s : Store) (now : Time) (caller : String) (item : Record)
    → after item.expires_at now ≡ true
    → get_or 0 item.caller s.callers ≤ max_records_per_caller
    → rank_of s now caller item ≡ 2
unfolding rank_of
strong s now caller item live share = ground arith

not_stale :
    (s : Store) (now : Time) (item : Record)
    → now ≤ item.last_seen + s.last_seen_ttl
    → is_stale s now item ≡ false
unfolding is_stale
not_stale s now item h = ground arith

-- The seating of another record leaves it.
seat_keeps :
    (s : Store) (now : Time) (r item : Record) (key : String)
    → lookup key s.records ≡ some item
    → rank_of s now r.caller item ≡ 2
    → key ≢ r.grant_hash
    → SeatOutcome s now r (seat s now r)
    → lookup key (seat s now r).0.records ≡ some item
seat_keeps s now r item key found two other (inl (_, _, (_, rest))) = elim (rest key other) [
  | inl same ↦ same ∙ found
  | inr (_, (w, ((victim, held, rank, _, one), _), at)) ↦ absurd (one (cc))
]
seat_keeps s now r item key found two other (inr (_, _, same)) = rw same found

-- A tombstone that is as new stands for the owner.
abbrev pub IsBarred : Store → PresenceHeartbeat → Type 0
IsBarred t value =
    (revoked : PresenceRevocation) × (lookup value.owner_hash t.revocations ≡ some revoked)
    × (value.updated_at ≤ revoked.updated_at)

-- The store without the tombstone of an owner.
abbrev pub lifted : String → Store → Store
lifted owner t = record t { revocations = remove owner t.revocations }

-- The heartbeat, as trimmed, is malformed, or barred by a tombstone of the pruned store, or seated.
abbrev pub BeatOutcome : Store → Time → String → PresenceHeartbeat → Store × Bool → Type 0
BeatOutcome s now caller value o =
    ((is_refused_beat now value ≡ true) × (o ≡ (s, false)))
    ⊎ ((is_refused_beat now value ≡ false)
        × IsBarred (prune_locked now s) value
        × (o ≡ (prune_locked now s, false)))
    ⊎ ((is_refused_beat now value ≡ false)
        × (¬ IsBarred (prune_locked now s) value)
        × SeatOutcome (lifted value.owner_hash (prune_locked now s)) now
            (record_of now caller value) o)

lifted-none : (owner : String) (t : Store) → lookup owner t.revocations ≡ none → lifted owner t ≡ t
lifted-none owner t e =
    ap (λ (m : Map String PresenceRevocation). record t { revocations = m })
      (remove_absent owner t.revocations e)

module _ (t : Store) (now : Time) (caller : String) (value : PresenceHeartbeat) where
  admit-none :
      lookup value.owner_hash t.revocations ≡ none
      → admit t now caller value ≡ seat t now (record_of now caller value)
  unfolding admit
  admit-none e = rw (e, admit) refl

  admit-some :
      (revoked : PresenceRevocation) (fresh : Bool)
      → lookup value.owner_hash t.revocations ≡ some revoked
      → after value.updated_at revoked.updated_at ≡ fresh
      → admit t now caller value ≡ (
          if not fresh
          then (t, false)
          else seat (lifted value.owner_hash t) now (record_of now caller value))
  unfolding admit
  admit-some revoked fresh e f = rw (e, admit) (rw f refl)

  admitted :
      (IsBarred t value × (admit t now caller value ≡ (t, false)))
      ⊎ ((¬ IsBarred t value)
          × (admit t now caller value
              ≡ seat (lifted value.owner_hash t) now (record_of now caller value)))
  admitted = elim (Option-cases (lookup value.owner_hash t.revocations)) [
    | inl e ↦ inr (
      (λ barred. let (revoked, found, old) = barred in absurd (cc)),
      admit-none e
          ∙ ap (λ u. seat u now (record_of now caller value))
              (sym (lifted-none value.owner_hash t e)),
    )
    | inr (revoked, e) ↦ elim (Bool-cases (after value.updated_at revoked.updated_at)) [
      | inl fresh ↦ inr (
        (λ barred. let (other, found, old) = barred in absurd (ground (arith, e, found))),
        admit-some revoked true e fresh,
      )
      | inr stale ↦ inl ((revoked, e, ground arith), admit-some revoked false e stale)
    ]
  ]

heartbeat_refused :
    (s : Store) (now : Time) (value : PresenceHeartbeat) (grant : Grant) (b : Bool)
    → is_refused_beat now (trim_beat now value) ≡ b
    → heartbeat_with_grant s now value grant ≡ (
        if b
        then (s, false)
        else admit (prune_locked now s) now (trim_space grant.caller) (trim_beat now value))
unfolding heartbeat_with_grant
heartbeat_refused s now value grant b e = rw e refl

-- In a store in lock-step, a heartbeat is refused as malformed and changes nothing; or a tombstone of its owner that is as new
-- bars it, and it only prunes; or it is seated: exactly where the grant hash has a lease already, a
-- slot is free, or its caller is below its share and some lease is offline or of a caller past its
-- share, and then the new lease stands, and the one other lease that may go is the weakest of a full
-- table.
pub heartbeat_with_grant-BeatOutcome :
    (s : Store) (now : Time) (value : PresenceHeartbeat) (grant : Grant)
    → InStep s
    → BeatOutcome s now
        (trim_space grant.caller)
        (trim_beat now value)
        (heartbeat_with_grant s now value grant)
heartbeat_with_grant-BeatOutcome s now value grant v = elim (Bool-cases (is_refused_beat now b)) [
  | inl e ↦ inl (e, heartbeat_refused s now value grant true e)
  | inr e ↦ elim (admitted (prune_locked now s) now (trim_space grant.caller) b) [
    | inl (barred, same) ↦ inr (inl (e, barred, heartbeat_refused s now value grant false e ∙ same))
    | inr (free, same) ↦ inr (
        inr (
          e,
          free,
          rw (heartbeat_refused s now value grant false e ∙ same) (
              seat-SeatOutcome (lifted b.owner_hash (prune_locked now s)) now
                (record_of now (trim_space grant.caller) b)
                (prune_locked-InStep now v).distinct_records),
        ))
  ]
]
  where
    b : PresenceHeartbeat
    b = trim_beat now value

-- In a store in lock-step, a heartbeat for another grant hash, whoever sends it, leaves a lease in place that is online, was
-- seen within the lifetime, and whose caller holds no more records than its share.
pub heartbeat_with_grant_keeps :
    (s : Store) (now : Time) (value : PresenceHeartbeat) (grant : Grant) (key : String)
    (item : Record)
    → InStep s
    → lookup key s.records ≡ some item
    → after item.expires_at now ≡ true
    → now ≤ item.last_seen + s.last_seen_ttl
    → count (of_caller item.caller) s.records ≤ max_records_per_caller
    → key ≢ trim_space value.grant_hash
    → lookup key (heartbeat_with_grant s now value grant).0.records ≡ some item
unfolding record_of trim_beat
heartbeat_with_grant_keeps s now value grant key item v found live seen share other =
    elim (Bool-cases (is_refused_beat now b)) [
      | inl e ↦ rw (heartbeat_refused s now value grant true e) found
      | inr e ↦ elim (admitted t now caller b) [
        | inl (barred, same) ↦ rw (heartbeat_refused s now value grant false e ∙ same) kept
        | inr (free, same) ↦ rw (heartbeat_refused s now value grant false e ∙ same) (
            seat_keeps (lifted b.owner_hash t) now (record_of now caller b) item key kept
              (strong (lifted b.owner_hash t) now caller item live
                (omega (arith, share, share-prune_locked item.caller now s v)))
              other
              (seat-SeatOutcome (lifted b.owner_hash t) now (record_of now caller b)
                (prune_locked-InStep now v).distinct_records))
      ]
    ]
  where
    b : PresenceHeartbeat
    b = trim_beat now value

    t : Store
    t = prune_locked now s

    caller : String
    caller = trim_space grant.caller

    kept : lookup key t.records ≡ some item
    kept = lookup-prune_locked now s key v ∙ ground (arith, found, not_stale s now item seen)
