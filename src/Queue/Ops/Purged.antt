-- ===== src/Queue/Ops/Purged.antt =====
-- PurgeOwner: the deletion by index removes exactly what a scan of the records would.
use dee_relay.Base.{
  ℕ, ◌+◌, ◌≤◌, ◌≡◌, none, some, Option, Bool, false, ◌&&◌, [], String, string_key, length, arith,
  ap, ◌==◌, ◌/=◌, ◌∙◌, trim_space,
}
use dee_relay.Map.{Map, lookup, get_or}
use dee_relay.Map.Keep.{keep_unless, keep_unless_congr}
use dee_relay.Map.Count.{is_held}
use dee_relay.Model.{MessageEnvelope, PurgeRecord, Time, purge_hash}
use dee_relay.Queue.Store.{Store}
use dee_relay.Queue.Purge.{
  store_purge_locked, delete_owned, purge_owner_locked, purge_owner, members,
}
use dee_relay.Queue.Invariant.{Inv}
use dee_relay.Queue.Ops.Lockstep.{store_purge_locked-Inv}
use dee_relay.Queue.Ops.Rounds.{elem, elem-members, Distinct-set, Deleted, delete_owned-Deleted}

-- A message of the owner, by the hash that its sender stamped on it.
abbrev pub is_owned : String → Option MessageEnvelope → Bool
is_owned hash none = false
is_owned hash (some e) = purge_hash e == hash && hash /= ""

-- What a scan of both record maps would leave, and the numbers of what it would delete.
pub record IsPurged (hash : String) (s : Store) (r : Store × ℕ × ℕ) : Type 0 where
  pub messages :
      (id : String)
      → lookup id (r.0).messages
        ≡ keep_unless (λ e. purge_hash e == hash && hash /= "") (lookup id s.messages)
  pub acks :
      (id : String)
      → lookup id (r.0).acks
        ≡ keep_unless (λ a. is_owned hash (lookup a.message_id s.messages)) (lookup id s.acks)
  pub message_count : r.1 + length (r.0).messages ≡ length s.messages
  pub ack_count : r.2 + length (r.0).acks ≡ length s.acks

pub purge_owner_locked-IsPurged :
    (s : Store) (hash : String) → Inv s → IsPurged hash s (purge_owner_locked s hash)
unfolding purge_owner_locked get_or
purge_owner_locked-IsPurged s hash v = record {
  messages = λ id. ground (arith, all.messages id, elem-members id owned, v.by_purge hash id);
  acks =
      λ id. all.acks id ∙ keep_unless_congr _ _ (lookup id s.acks) (λ a. elem_owned a.message_id);
  message_count = omega (arith, all.message_count);
  ack_count = omega (arith, all.ack_count);
}
  where
    owned : Map String (Unit {0})
    owned = get_or [] hash s.messages_by_purge

    elem_owned : (m : String) → elem m (members owned) ≡ is_owned hash (lookup m s.messages)
    elem_owned m = ground (arith, elem-members m owned, v.by_purge hash m)

    held : (j : String) → is_held (lookup j owned) ≤ is_held (lookup j s.messages)
    held j = ground (arith, v.by_purge hash j)

    all : Deleted (members owned) s 0 0 (delete_owned (members owned) (s, 0, 0))
    all =
        delete_owned-Deleted owned s 0 0 v
          (Distinct-set (lookup hash s.messages_by_purge) (v.tidy.purge_sets hash)) held

records-store_purge_locked :
    (s : Store) (p : PurgeRecord)
    → ((store_purge_locked s p).messages ≡ s.messages) × ((store_purge_locked s p).acks ≡ s.acks)
unfolding store_purge_locked
records-store_purge_locked s p = ground arith

-- In a store in lock-step, a purge by index leaves of the messages those that do not carry the hash, and of the acks those
-- that name none of the purged messages; its two answers are the numbers deleted; and a blank hash
-- purges nothing.
pub purge_owner-IsPurged :
    (s : Store) (now : Time) (hash : String)
    → Inv s
    → IsPurged (trim_space hash) s (purge_owner s now hash)
unfolding purge_owner
purge_owner-IsPurged s now hash v =
    let tombstone : PurgeRecord = record {
      purge_hash = trim_space hash;
      expires_at = now + s.default_ttl;
    } in
    let (messages, acks) = records-store_purge_locked s tombstone in
    let p =
      purge_owner_locked-IsPurged (store_purge_locked s tombstone) (trim_space hash)
        (store_purge_locked-Inv tombstone v) in
    record {
      messages = rw messages at p.messages;
      acks = rw (messages, acks) at p.acks;
      message_count = omega (arith, p.message_count, ap length messages);
      ack_count = omega (arith, p.ack_count, ap length acks);
    }
