-- ===== src/Presence/Lists.antt =====
-- internal/presence/store.go: Query, Count, Snapshot and Revocations, the reads of the table.
use dee_relay.Base.{ℕ, none, some, List, [], ◌∷◌, String, string_key, length, map, trim_space}
use dee_relay.Map.{lookup}
use dee_relay.Model.{Time, after, PresenceHeartbeat, PresenceStatus, PresenceRevocation}
use dee_relay.Presence.Table.{Store, Record, prune_locked}

unfoldable pub status_of : Time → Record → PresenceStatus
status_of now item = record {
  grant_hash = item.grant_hash;
  online = after item.expires_at now;
  last_seen = item.last_seen;
}

unfoldable pub answers : Store → Time → List String → List PresenceStatus
unfolding status_of
answers s now [] = []
answers s now (grant ∷ grants) =
    let rest = answers s now grants in
    elim (lookup (trim_space grant) s.records) [
      | none ↦ rest
      | some item ↦ status_of now item ∷ rest
    ]

unfoldable pub query : Store → Time → List String → Store × List PresenceStatus
unfolding prune_locked answers
query s now grants = let s' = prune_locked now s in (s', answers s' now grants)

unfoldable pub count_records : Store → Time → Store × ℕ
unfolding prune_locked
count_records s now = let s' = prune_locked now s in (s', length s'.records)

unfoldable pub beat_of : Record → PresenceHeartbeat
beat_of item = record {
  owner_hash = item.owner_hash;
  grant_hash = item.grant_hash;
  updated_at = item.updated_at;
  expires_at = item.expires_at;
}

unfoldable pub snapshot : Store → Time → Store × List PresenceHeartbeat
unfolding prune_locked beat_of
snapshot s now = let s' = prune_locked now s in (s', map (λ e. beat_of e.1) s'.records)

unfoldable pub revocations_of : Store → Time → Store × List PresenceRevocation
unfolding prune_locked
revocations_of s now = let s' = prune_locked now s in (s', map (λ e. e.1) s'.revocations)
