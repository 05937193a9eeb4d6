-- ===== src/Presence/Beats.antt =====
-- internal/presence/store.go: HeartbeatWithGrant, and makeRoomLocked, which takes a slot from the
-- record with the weakest claim to it.
use dee_relay.Base.{
  ℕ, ◌+◌, ◌*◌, ◌==◌, ◌/=◌, ◌&&◌, ◌||◌, Bool, true, false, not, Option, none, some, List, [], ◌∷◌,
  String, string_key, nat_key, if◌then◌else◌, ltb, leb, length, trim_space, is_empty,
}
use dee_relay.Map.{Map, lookup, get_or, has, remove}
use dee_relay.Model.{Time, Duration, after, is_zero, PresenceHeartbeat}
use dee_relay.Presence.Table.{
  Store, Record, Grant, put_locked, drop_locked, prune_locked, max_records_per_caller,
}

-- `victim`, `bestRank` and `bestSeen` of the scan, once one is found.
pub record Victim : Type 0 where
  pub key : String
  pub rank : ℕ
  pub last_seen : Time

-- 0 for an offline record, 1 for one whose caller is past its share, 2 for no candidate.
unfoldable pub rank_of : Store → Time → String → Record → ℕ
rank_of s now caller item =
    if not (after item.expires_at now)
    then 0
    else if item.caller /= caller && ltb max_records_per_caller (get_or 0 item.caller s.callers)
    then 1
    else 2

unfoldable pub better : Victim → Option Victim → Option Victim
better v none = some v
better v (some b) =
    if ltb v.rank b.rank || v.rank == b.rank && ltb v.last_seen b.last_seen then some v else some b

-- One round of the scan.
unfoldable pub weigh : Store → Time → String → String × Record → Option Victim → Option Victim
unfolding rank_of better
weigh s now caller (key, item) best =
    let rank = rank_of s now caller item in
    if rank == 2
    then best
    else better (record { key = key; rank = rank; last_seen = item.last_seen }) best

unfoldable pub find_victim :
    Store → Time → String → Map String Record → Option Victim → Option Victim
unfolding weigh
find_victim s now caller [] best = best
find_victim s now caller (entry ∷ m) best =
    find_victim s now caller m (weigh s now caller entry best)

unfoldable pub make_room_locked : Store → Time → String → Store × Bool
unfolding find_victim
make_room_locked s now caller =
    if ltb (length s.records) s.max_records
    then (s, true)
    else if leb max_records_per_caller (get_or 0 caller s.callers)
    then (s, false)
    else elim (find_victim s now caller s.records none) [
      | none ↦ (s, false)
      | some v ↦ (drop_locked s v.key, true)
    ]

abbrev pub online_window : Duration
online_window = 5 * 60_000_000_000

unfoldable pub is_refused_beat : Time → PresenceHeartbeat → Bool
is_refused_beat now value =
    is_empty value.owner_hash
    || is_empty value.grant_hash
    || not (after value.expires_at now)
    || after value.expires_at (now + online_window)

unfoldable pub trim_beat : Time → PresenceHeartbeat → PresenceHeartbeat
unfolding is_zero
trim_beat now value = record value {
  owner_hash = trim_space value.owner_hash;
  grant_hash = trim_space value.grant_hash;
  updated_at = if is_zero value.updated_at then now else value.updated_at;
}

-- The record that a heartbeat asks for.
unfoldable pub record_of : Time → String → PresenceHeartbeat → Record
record_of now caller value = record {
  owner_hash = value.owner_hash;
  grant_hash = value.grant_hash;
  caller = caller;
  last_seen = now;
  updated_at = value.updated_at;
  expires_at = value.expires_at;
}

-- The slot for the record and the writing of it.
unfoldable pub seat : Store → Time → Record → Store × Bool
unfolding make_room_locked put_locked
seat s now r =
    if has r.grant_hash s.records
    then (put_locked s r, true)
    else let (s', room) = make_room_locked s now r.caller in
      if room then (put_locked s' r, true) else (s', false)

-- The tombstone of the owner against the heartbeat, then the seat.
unfoldable pub admit : Store → Time → String → PresenceHeartbeat → Store × Bool
unfolding seat record_of
admit s now caller value = elim (lookup value.owner_hash s.revocations) [
  | none ↦ seat s now (record_of now caller value)
  | some revoked ↦
      if not (after value.updated_at revoked.updated_at)
      then (s, false)
      else seat (record s { revocations = remove value.owner_hash s.revocations }) now
          (record_of now caller value)
]

unfoldable pub heartbeat_with_grant : Store → Time → PresenceHeartbeat → Grant → Store × Bool
unfolding trim_beat is_refused_beat prune_locked admit
heartbeat_with_grant s now value grant =
    let v = trim_beat now value in
    if is_refused_beat now v
    then (s, false)
    else admit (prune_locked now s) now (trim_space grant.caller) v

unfoldable pub heartbeat : Store → Time → PresenceHeartbeat → Store × Bool
unfolding heartbeat_with_grant
heartbeat s now value = heartbeat_with_grant s now value (record { caller = "" })

unfoldable pub import : Store → List (Time × PresenceHeartbeat) → Store
unfolding heartbeat
import s [] = s
import s ((now, value) ∷ values) = import (heartbeat s now value).0 values
