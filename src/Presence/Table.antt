-- ===== src/Presence/Table.antt =====
-- internal/presence/store.go: the store, the two writers of its table, and the pruning of it.
use dee_relay.Base.{
  ℕ, ◌+◌, ◌*◌, Bool, none, some, [], ◌∷◌, String, string_key, if◌then◌else◌, ltb, ℤ, or_default,
}
use dee_relay.Map.{Map, lookup, insert, remove}
use dee_relay.Map.Counter.{bump, drop_one}
use dee_relay.Model.{Time, Duration, after, PresenceRevocation}

abbrev pub max_records_per_caller : ℕ
max_records_per_caller = 32

pub record Record : Type 0 where
  pub owner_hash : String
  pub grant_hash : String
  pub caller : String
  pub last_seen : Time
  pub updated_at : Time
  pub expires_at : Time

-- What a heartbeat proved about its caller: the key to count it under.
pub record Grant : Type 0 where
  pub caller : String

pub record Store : Type 0 where
  pub max_records : ℕ
  pub last_seen_ttl : Duration
  pub records : Map String Record
  pub callers : Map String ℕ
  pub revocations : Map String PresenceRevocation

unfoldable pub new_store : ℤ → ℤ → Store
unfolding or_default
new_store max_records last_seen_ttl = record {
  max_records = or_default 5000 max_records;
  last_seen_ttl = or_default (24 * 3_600_000_000_000) last_seen_ttl;
  records = [];
  callers = [];
  revocations = [];
}

-- `putLocked`, with `releaseLocked` of the caller that held the key before.
unfoldable pub release_previous : Store → String → Map String ℕ
unfolding drop_one
release_previous s grant_hash = elim (lookup grant_hash s.records) [
  | none ↦ s.callers
  | some previous ↦ drop_one previous.caller s.callers
]

unfoldable pub put_locked : Store → Record → Store
unfolding bump release_previous
put_locked s value = record s {
  records = insert value.grant_hash value s.records;
  callers = bump value.caller (release_previous s value.grant_hash);
}

unfoldable pub drop_locked : Store → String → Store
unfolding drop_one
drop_locked s grant_hash = elim (lookup grant_hash s.records) [
  | none ↦ s
  | some item ↦ record s {
    records = remove grant_hash s.records;
    callers = drop_one item.caller s.callers;
  }
]

-- A loop over the table that drops the records of a test, and the number dropped.
unfoldable pub drop_where : (Record → Bool) → Map String Record → Store × ℕ → Store × ℕ
drop_where p [] r = r
drop_where p ((key, item) ∷ m) (s, n) =
    drop_where p m (if p item then (drop_locked s key, n + 1) else (s, n))

-- The loop over the tombstones.
unfoldable pub drop_dead : Time → Map String PresenceRevocation → Store → Store
drop_dead now [] s = s
drop_dead now ((key, item) ∷ m) s =
    drop_dead now m
      (if after item.expires_at now then s else record s { revocations = remove key s.revocations })

unfoldable pub is_stale : Store → Time → Record → Bool
is_stale s now item = ltb (item.last_seen + s.last_seen_ttl) now

unfoldable pub prune_locked : Time → Store → Store
unfolding drop_where drop_dead is_stale
prune_locked now s =
    let s' = (drop_where (is_stale s now) s.records (s, 0)).0 in drop_dead now s'.revocations s'

unfoldable pub prune : Store → Time → Store
unfolding prune_locked
prune s now = prune_locked now s
