-- ===== src/Queue/Invariant/Acks.antt =====
-- addAckWithinLocked and deleteAckLocked keep the maps in lock-step.
use dee_relay.Base.{
  ◌+◌, ◌<◌, ◌≡◌, ◌≢◌, none, some, String, string_key, length, arith, Option-cases, inl, inr,
}
use dee_relay.Map.{lookup, remove, lookup-insert, lookup-remove, Distinct-insert, Distinct-remove}
use dee_relay.Map.Count.{count, count-insert, count-remove, length-insert, length-remove, is_held}
use dee_relay.Model.{AckRecord}
use dee_relay.Queue.Store.{Store, insert_ack, delete_held_ack, delete_ack_locked, next_seq}
use dee_relay.Queue.Invariant.Shapes.{
  Distinct-bind, Distinct-release, Distinct-index_add, Distinct-index_remove, IsIdSet-index_add,
  IsIdSet-index_remove,
}
use dee_relay.Queue.Invariant.{Inv, Tidy, Binds, names, listed, under_message}
use dee_relay.Queue.Invariant.Indexes.{
  bind-Binds, release-Binds, listed-index_add, listed-index_remove,
}

module _ {s : Store} (a : AckRecord) (v : Inv s) (new : lookup a.id s.acks ≡ none) (own : a.id ≢ "")
    (route : a.message_id ≢ "") where
  added-tags :
      (id : String)
      → Binds
          (lookup id (insert_ack s a).message_tags)
          (is_held (lookup id s.messages) + count (names id) (insert_ack s a).acks)
  unfolding insert_ack
  added-tags id = ground (
    arith,
    count-insert (names id) a.id a s.acks,
    bind-Binds s.message_tags a.message_id id
        (is_held (lookup id s.messages) + count (names id) s.acks) a.recipient_tag route
        (v.tags id),
  )

  added-by_message :
      (message_id id : String)
      → listed message_id id (insert_ack s a).acks_by_message
        ≡ under_message message_id (lookup id (insert_ack s a).acks)
  unfolding insert_ack
  added-by_message message_id id = ground (
    arith,
    v.by_message message_id id,
    lookup-insert a.id id a s.acks,
    listed-index_add s.acks_by_message a.message_id a.id message_id id route own,
  )

  inserted-Tidy : length s.acks < s.max_acks → Tidy (insert_ack s a)
  unfolding insert_ack
  inserted-Tidy room = record {
    distinct_pairs = v.tidy.distinct_pairs;
    distinct_credentials = v.tidy.distinct_credentials;
    distinct_message_seq = v.tidy.distinct_message_seq;
    distinct_ack_seq = Distinct-insert a.id (next_seq s.seq) s.ack_seq v.tidy.distinct_ack_seq;
    distinct_tags = Distinct-bind a.message_id s.message_tags v.tidy.distinct_tags a.recipient_tag;
    distinct_by_purge = v.tidy.distinct_by_purge;
    distinct_by_message =
        Distinct-index_add s.acks_by_message a.message_id a.id v.tidy.distinct_by_message;
    purge_sets = v.tidy.purge_sets;
    message_sets = λ h.
        IsIdSet-index_add s.acks_by_message a.message_id a.id h (v.tidy.message_sets a.message_id)
          (v.tidy.message_sets h);
    distinct_purges = v.tidy.distinct_purges;
    lane = v.tidy.lane;
    few_messages = v.tidy.few_messages;
    few_acks = omega (arith, length-insert a.id a s.acks);
    few_purges = v.tidy.few_purges;
  }

  pub insert_ack-Inv : length s.acks < s.max_acks → Inv (insert_ack s a)
  unfolding insert_ack
  insert_ack-Inv room = record {
    distinct_messages = v.distinct_messages;
    distinct_acks = Distinct-insert a.id a s.acks v.distinct_acks;
    distinct_credential = v.distinct_credential;
    filed_messages = v.filed_messages;
    filed_acks = λ id. ground (arith, v.filed_acks id, lookup-insert a.id id a s.acks);
    pairs = v.pairs;
    credentials = v.credentials;
    charged = v.charged;
    message_seqs = v.message_seqs;
    ack_seqs = λ id. ground (
      arith,
      v.ack_seqs id,
      lookup-insert a.id id a s.acks,
      lookup-insert a.id id (next_seq s.seq) s.ack_seq,
    );
    tags = added-tags;
    by_purge = v.by_purge;
    by_message = added-by_message;
    tidy = inserted-Tidy room;
  }

module _ {s : Store} (id : String) (a : AckRecord) (v : Inv s)
    (found : lookup id s.acks ≡ some a) where
  deleted-tags :
      (j : String)
      → Binds
          (lookup j (delete_held_ack s id a).message_tags)
          (is_held (lookup j s.messages) + count (names j) (delete_held_ack s id a).acks)
  unfolding delete_held_ack
  deleted-tags j = ground (
    arith,
    v.tags j,
    count-remove (names j) id s.acks v.distinct_acks,
    release-Binds s.message_tags a.message_id j
        (is_held (lookup j s.messages) + count (names j) (remove id s.acks)),
  )

  deleted-by_message :
      (message_id j : String)
      → listed message_id j (delete_held_ack s id a).acks_by_message
        ≡ under_message message_id (lookup j (delete_held_ack s id a).acks)
  unfolding delete_held_ack
  deleted-by_message message_id j = ground (
    arith,
    v.by_message message_id j,
    lookup-remove id j s.acks,
    listed-index_remove s.acks_by_message a.message_id id message_id j,
  )

  deleted-Tidy : Tidy (delete_held_ack s id a)
  unfolding delete_held_ack
  deleted-Tidy = record {
    distinct_pairs = v.tidy.distinct_pairs;
    distinct_credentials = v.tidy.distinct_credentials;
    distinct_message_seq = v.tidy.distinct_message_seq;
    distinct_ack_seq = Distinct-remove id s.ack_seq v.tidy.distinct_ack_seq;
    distinct_tags = Distinct-release a.message_id s.message_tags v.tidy.distinct_tags;
    distinct_by_purge = v.tidy.distinct_by_purge;
    distinct_by_message =
        Distinct-index_remove s.acks_by_message a.message_id id v.tidy.distinct_by_message;
    purge_sets = v.tidy.purge_sets;
    message_sets = λ h.
        IsIdSet-index_remove s.acks_by_message a.message_id id h (v.tidy.message_sets a.message_id)
          (v.tidy.message_sets h);
    distinct_purges = v.tidy.distinct_purges;
    lane = v.tidy.lane;
    few_messages = v.tidy.few_messages;
    few_acks = omega (arith, length-remove id s.acks v.distinct_acks, v.tidy.few_acks);
    few_purges = v.tidy.few_purges;
  }

  delete_held_ack-Inv : Inv (delete_held_ack s id a)
  unfolding delete_held_ack
  delete_held_ack-Inv = record {
    distinct_messages = v.distinct_messages;
    distinct_acks = Distinct-remove id s.acks v.distinct_acks;
    distinct_credential = v.distinct_credential;
    filed_messages = v.filed_messages;
    filed_acks = λ j. ground (arith, v.filed_acks j, lookup-remove id j s.acks);
    pairs = v.pairs;
    credentials = v.credentials;
    charged = v.charged;
    message_seqs = v.message_seqs;
    ack_seqs =
        λ j. ground (arith, v.ack_seqs j, lookup-remove id j s.acks, lookup-remove id j s.ack_seq);
    tags = deleted-tags;
    by_purge = v.by_purge;
    by_message = deleted-by_message;
    tidy = deleted-Tidy;
  }

pub delete_ack_locked-Inv : {s : Store} (id : String) → Inv s → Inv (delete_ack_locked s id)
unfolding delete_ack_locked
delete_ack_locked-Inv {s} id v = elim (Option-cases (lookup id s.acks)) [
  | inl e ↦ rw (e, delete_ack_locked) v
  | inr (a, e) ↦ rw (e, delete_ack_locked) (delete_held_ack-Inv id a v e)
]
