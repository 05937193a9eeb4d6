-- ===== src/Queue/Ops/Lockstep.antt =====
-- The purges and the sweeps keep the maps in lock-step, and a new store has them so.
use dee_relay.Base.{
  ℕ, ◌≤◌, ◌<◌, refl, String, string_key, length, arith, inl, inr, Bool-cases, List, [], ◌∷◌,
  if_both, not, leb, ◌&&◌, trim_space, ℤ, or_default,
}
use dee_relay.Map.{
  Map, Distinct, lookup, has, insert, remove, Distinct-insert, Distinct-remove, get_or,
}
use dee_relay.Map.Count.{length-insert, length-remove, count}
use dee_relay.Model.{PurgeRecord, Time, after}
use dee_relay.Queue.Types.{StoreConfig}
use dee_relay.Queue.Store.{Store, new_store, delete_message_locked}
use dee_relay.Queue.Purge.{
  store_purge_locked, delete_acks, delete_owned, purge_owner_locked, purge_owner, sweep_messages,
  sweep_acks, sweep_purges, sweep, prune_expired, ack_ids_for_message_locked, members,
}
use dee_relay.Queue.Replicate.{snapshot_since}
use dee_relay.Queue.Invariant.{Inv}
use dee_relay.Queue.Invariant.Deletes.{delete_message_locked-Inv}
use dee_relay.Queue.Invariant.Acks.{delete_ack_locked-Inv}
use dee_relay.Queue.Ops.Sweeps.{sweep_messages-Inv, sweep_acks-Inv}

-- The tombstones take no part in the lock-step, so a store that differs in them alone keeps it.
with_purges-Inv :
    {s : Store} (purges : Map String PurgeRecord)
    → Distinct purges
    → length purges ≤ s.max_purges
    → Inv s
    → Inv (record s { purges = purges })
with_purges-Inv purges d few v = record {
  distinct_messages = v.distinct_messages;
  distinct_acks = v.distinct_acks;
  distinct_credential = v.distinct_credential;
  filed_messages = v.filed_messages;
  filed_acks = v.filed_acks;
  pairs = v.pairs;
  credentials = v.credentials;
  charged = v.charged;
  message_seqs = v.message_seqs;
  ack_seqs = v.ack_seqs;
  tags = v.tags;
  by_purge = v.by_purge;
  by_message = v.by_message;
  tidy = record {
    distinct_pairs = v.tidy.distinct_pairs;
    distinct_credentials = v.tidy.distinct_credentials;
    distinct_message_seq = v.tidy.distinct_message_seq;
    distinct_ack_seq = v.tidy.distinct_ack_seq;
    distinct_tags = v.tidy.distinct_tags;
    distinct_by_purge = v.tidy.distinct_by_purge;
    distinct_by_message = v.tidy.distinct_by_message;
    purge_sets = v.tidy.purge_sets;
    message_sets = v.tidy.message_sets;
    distinct_purges = d;
    lane = v.tidy.lane;
    few_messages = v.tidy.few_messages;
    few_acks = v.tidy.few_acks;
    few_purges = few;
  };
}

pub store_purge_locked-Inv : {s : Store} (p : PurgeRecord) → Inv s → Inv (store_purge_locked s p)
unfolding store_purge_locked has
store_purge_locked-Inv {s} p v =
    elim (Bool-cases (not (has p.purge_hash s.purges) && leb s.max_purges (length s.purges))) [
      | inl full ↦ rw (full, store_purge_locked) v
      | inr room ↦
          rw (room, store_purge_locked)
            (with_purges-Inv (insert p.purge_hash p s.purges)
              (Distinct-insert p.purge_hash p s.purges v.tidy.distinct_purges)
              (ground (arith, v.tidy.few_purges, length-insert p.purge_hash p s.purges)) v)
    ]

pub delete_acks-Inv : (ids : List String) (s : Store) → Inv s → Inv (delete_acks ids s)
unfolding delete_acks
delete_acks-Inv [] s v = v
delete_acks-Inv (id ∷ ids) s v = delete_acks-Inv ids _ (delete_ack_locked-Inv id v)

delete_owned-Inv :
    (ids : List String) (s : Store) (n m : ℕ) → Inv s → Inv (delete_owned ids (s, n, m)).0
unfolding delete_owned
delete_owned-Inv [] s n m v = v
delete_owned-Inv (id ∷ ids) s n m v = delete_owned-Inv ids _ _ _ (
    delete_acks-Inv (ack_ids_for_message_locked (delete_message_locked s id) id) _
      (delete_message_locked-Inv id v))

pub purge_owner_locked-Inv : {s : Store} (hash : String) → Inv s → Inv (purge_owner_locked s hash).0
unfolding purge_owner_locked
purge_owner_locked-Inv {s} hash v =
    delete_owned-Inv (members (get_or [] hash s.messages_by_purge)) s 0 0 v

pub purge_owner-Inv :
    {s : Store} (now : Time) (hash : String) → Inv s → Inv (purge_owner s now hash).0
unfolding purge_owner
purge_owner-Inv now hash v = purge_owner_locked-Inv (trim_space hash) (store_purge_locked-Inv _ v)

sweep_purges-Inv :
    (now : Time) (m : Map String PurgeRecord) (s : Store) → Inv s → Inv (sweep_purges now m s)
unfolding sweep_purges
sweep_purges-Inv now [] s v = v
sweep_purges-Inv now ((hash, p) ∷ m) s v = sweep_purges-Inv now m _ (
    if_both Inv (after p.expires_at now) v (
      with_purges-Inv (remove hash s.purges) (Distinct-remove hash s.purges v.tidy.distinct_purges)
        (omega (arith, v.tidy.few_purges, length-remove hash s.purges v.tidy.distinct_purges)) v))

pub sweep-Inv : {s : Store} (now : Time) → Inv s → Inv (sweep now s)
unfolding sweep
sweep-Inv {s} now v =
    let s₁ = sweep_messages now s.messages s in
    let s₂ = sweep_acks now s₁.acks s₁ in
    sweep_purges-Inv now s₂.purges s₂
      (sweep_acks-Inv now s₁.acks s₁ (sweep_messages-Inv now s.messages s v))

pub prune_expired-Inv : {s : Store} (now : Time) → Inv s → Inv (prune_expired s now).0
unfolding prune_expired
prune_expired-Inv now v = sweep-Inv now v

pub snapshot_since-Inv :
    {s : Store} (now : Time) (since : ℕ) (limit : ℤ)
    → Inv s
    → Inv (snapshot_since s now since limit).0
unfolding snapshot_since
snapshot_since-Inv now since limit v = sweep-Inv now v

or_default-pos : (fallback : ℕ) (v : ℤ) → 0 < fallback → 0 < or_default fallback v
unfolding or_default
or_default-pos fallback v h = ground arith

new_store_lane :
    (cfg : StoreConfig) (epoch : String)
    → (new_store cfg epoch).max_messages < (new_store cfg epoch).max_acks
unfolding new_store
new_store_lane cfg epoch = ground (arith, or_default-pos 1000 cfg.max_messages (omega arith))

pub new_store-Inv : (cfg : StoreConfig) (epoch : String) → Inv (new_store cfg epoch)
unfolding new_store lookup get_or count
new_store-Inv cfg epoch = record {
  distinct_messages = tt;
  distinct_acks = tt;
  distinct_credential = tt;
  filed_messages = λ id. tt;
  filed_acks = λ id. tt;
  pairs = λ key. refl;
  credentials = λ c. refl;
  charged = λ id. tt;
  message_seqs = λ id. refl;
  ack_seqs = λ id. refl;
  tags = λ id. refl;
  by_purge = λ hash id. refl;
  by_message = λ message_id id. refl;
  tidy = record {
    distinct_pairs = tt;
    distinct_credentials = tt;
    distinct_message_seq = tt;
    distinct_ack_seq = tt;
    distinct_tags = tt;
    distinct_by_purge = tt;
    distinct_by_message = tt;
    purge_sets = λ hash. tt;
    message_sets = λ id. tt;
    distinct_purges = tt;
    lane = new_store_lane cfg epoch;
    few_messages = omega arith;
    few_acks = omega arith;
    few_purges = omega arith;
  };
}
