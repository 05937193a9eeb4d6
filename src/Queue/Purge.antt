-- ===== src/Queue/Purge.antt =====
-- internal/queue/store.go: PurgeOwner, the tombstones, and PruneExpired.
use dee_relay.Base.{
  ℕ, ◌+◌, ◌&&◌, List, [], ◌∷◌, String, string_key, leb, if◌then◌else◌, not, trim_space, length, map,
}
use dee_relay.Map.{Map, has, get_or, insert, remove}
use dee_relay.Model.{Time, after, MessageEnvelope, AckRecord, PurgeRecord}
use dee_relay.Queue.Types.{Stats}
use dee_relay.Queue.Store.{Store, delete_message_locked, delete_ack_locked}
use dee_relay.Queue.Fetch.{stats_locked}

unfoldable pub store_purge_locked : Store → PurgeRecord → Store
store_purge_locked s purge =
    if not (has purge.purge_hash s.purges) && leb s.max_purges (length s.purges)
    then s
    else record s { purges = insert purge.purge_hash purge s.purges }

-- The keys of a set, copied out.
unfoldable pub members : Map String (Unit {0}) → List String
members = map (λ e. e.0)

unfoldable pub ack_ids_for_message_locked : Store → String → List String
unfolding members
ack_ids_for_message_locked s message_id = members (get_or [] message_id s.acks_by_message)

unfoldable pub delete_acks : List String → Store → Store
delete_acks [] s = s
delete_acks (id ∷ ids) s = delete_acks ids (delete_ack_locked s id)

unfoldable pub delete_owned : List String → Store × ℕ × ℕ → Store × ℕ × ℕ
unfolding delete_acks
delete_owned [] r = r
delete_owned (id ∷ ids) (s, messages, acks) =
    let s' = delete_message_locked s id in
    let naming = ack_ids_for_message_locked s' id in
    delete_owned ids (delete_acks naming s', messages + 1, acks + length naming)

unfoldable pub purge_owner_locked : Store → String → Store × ℕ × ℕ
unfolding delete_owned members
purge_owner_locked s hash = delete_owned (members (get_or [] hash s.messages_by_purge)) (s, 0, 0)

unfoldable pub purge_owner : Store → Time → String → Store × ℕ × ℕ
unfolding store_purge_locked purge_owner_locked
purge_owner s now hash =
    let trimmed = trim_space hash in
    let tombstone : PurgeRecord = record {
      purge_hash = trimmed;
      expires_at = now + s.default_ttl;
    } in
    purge_owner_locked (store_purge_locked s tombstone) trimmed

-- The three loops that drop what has expired.
unfoldable pub sweep_messages : Time → Map String MessageEnvelope → Store → Store
sweep_messages now [] s = s
sweep_messages now ((id, e) ∷ m) s =
    sweep_messages now m (if after e.expires_at now then s else delete_message_locked s id)

unfoldable pub sweep_acks : Time → Map String AckRecord → Store → Store
sweep_acks now [] s = s
sweep_acks now ((id, a) ∷ m) s =
    sweep_acks now m (if after a.expires_at now then s else delete_ack_locked s id)

unfoldable pub sweep_purges : Time → Map String PurgeRecord → Store → Store
sweep_purges now [] s = s
sweep_purges now ((hash, p) ∷ m) s =
    sweep_purges now m
      (if after p.expires_at now then s else record s { purges = remove hash s.purges })

unfoldable pub sweep : Time → Store → Store
unfolding sweep_messages sweep_acks sweep_purges
sweep now s =
    let s₁ = sweep_messages now s.messages s in
    let s₂ = sweep_acks now s₁.acks s₁ in sweep_purges now s₂.purges s₂

unfoldable pub prune_expired : Store → Time → Store × Stats
unfolding sweep stats_locked
prune_expired s now = let s' = sweep now s in (s', stats_locked s')
