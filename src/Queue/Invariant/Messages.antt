-- ===== src/Queue/Invariant/Messages.antt =====
-- addMessageLocked and deleteMessageLocked keep the maps in lock-step.
use dee_relay.Base.{
  ℕ, ◌+◌, ◌<◌, ◌≡◌, ◌≢◌, none, String, string_key, string_discrete, nat_key, length, arith,
}
use dee_relay.Map.{lookup, lookup-insert, Distinct-insert}
use dee_relay.Map.Counter.{bump-Counts, Distinct-bump, Counts}
use dee_relay.Map.Count.{count, count-insert, length-insert, is_held}
use dee_relay.Model.{MessageEnvelope, purge_hash}
use dee_relay.Queue.Store.{Store, pair_key, add_message_locked, next_seq}
use dee_relay.Queue.Invariant.Shapes.{Distinct-bind, Distinct-index_add, IsIdSet-index_add}
use dee_relay.Queue.Invariant.{
  Inv, Tidy, Binds, IsCharged, IsFiledMessage, in_lane, charged_to, names, listed, under_purge,
}
use dee_relay.Queue.Invariant.Indexes.{bind-Binds, listed-index_add, index_add_empty}

module _ {s : Store} (e : MessageEnvelope) (credential : ℕ) (v : Inv s)
    (new : lookup e.id s.messages ≡ none) (route : e.id ≢ "") where
  added-pairs :
      (key : String)
      → Counts
          (lookup key (add_message_locked s e credential).pair_counts)
          (count (in_lane key) (add_message_locked s e credential).messages)
  unfolding add_message_locked
  added-pairs key = ground (
    arith,
    count-insert (in_lane key) e.id e s.messages,
    bump-Counts s.pair_counts (pair_key e.sender e.recipient) key (count (in_lane key) s.messages)
        (v.pairs key),
  )

  added-credentials :
      (c : ℕ)
      → Counts
          (lookup c (add_message_locked s e credential).credential_counts)
          (count (charged_to c) (add_message_locked s e credential).message_credential)
  unfolding add_message_locked
  added-credentials c = ground (
    arith,
    v.credentials c,
    v.charged e.id,
    count-insert (charged_to c) e.id credential s.message_credential,
    bump-Counts s.credential_counts credential c (count (charged_to c) s.message_credential)
        (v.credentials c),
  )

  added-IsCharged :
      (id : String)
      → IsCharged
          (lookup id (add_message_locked s e credential).message_credential)
          (lookup id (add_message_locked s e credential).messages)
  unfolding add_message_locked
  added-IsCharged id = ground (
    arith,
    v.charged id,
    lookup-insert e.id id credential s.message_credential,
    lookup-insert e.id id e s.messages,
  )

  added-filed :
      (id : String) → IsFiledMessage id (lookup id (add_message_locked s e credential).messages)
  unfolding add_message_locked
  added-filed id = ground (arith, v.filed_messages id, lookup-insert e.id id e s.messages)

  added-seqs :
      (id : String)
      → is_held (lookup id (add_message_locked s e credential).message_seq)
        ≡ is_held (lookup id (add_message_locked s e credential).messages)
  unfolding add_message_locked
  added-seqs id = ground (
    arith,
    v.message_seqs id,
    lookup-insert e.id id e s.messages,
    lookup-insert e.id id (next_seq s.seq) s.message_seq,
  )

  added-tags :
      (id : String)
      → Binds (lookup id (add_message_locked s e credential).message_tags) (
          is_held (lookup id (add_message_locked s e credential).messages)
          + count (names id) s.acks)
  unfolding add_message_locked
  added-tags id = ground (
    arith,
    lookup-insert e.id id e s.messages,
    bind-Binds s.message_tags e.id id (is_held (lookup id s.messages) + count (names id) s.acks)
        e.recipient_tag route (v.tags id),
  )

  added-by_purge :
      (hash id : String)
      → listed hash id (add_message_locked s e credential).messages_by_purge
        ≡ under_purge hash (lookup id (add_message_locked s e credential).messages)
  unfolding add_message_locked
  added-by_purge hash id = elim (string_discrete (purge_hash e) "") [
    | yes p ↦
        rw (p, index_add_empty s.messages_by_purge e.id)
          (ground (arith, v.by_purge hash id, lookup-insert e.id id e s.messages))
    | no p ↦ ground (
      arith,
      v.by_purge hash id,
      lookup-insert e.id id e s.messages,
      listed-index_add s.messages_by_purge (purge_hash e) e.id hash id p route,
    )
  ]

  added-Tidy : length s.messages < s.max_messages → Tidy (add_message_locked s e credential)
  unfolding add_message_locked
  added-Tidy room = record {
    distinct_pairs =
        Distinct-bump (pair_key e.sender e.recipient) s.pair_counts v.tidy.distinct_pairs;
    distinct_credentials = ground (
      arith,
      v.tidy.distinct_credentials,
      Distinct-bump credential s.credential_counts v.tidy.distinct_credentials,
    );
    distinct_message_seq =
        Distinct-insert e.id (next_seq s.seq) s.message_seq v.tidy.distinct_message_seq;
    distinct_ack_seq = v.tidy.distinct_ack_seq;
    distinct_tags = Distinct-bind e.id s.message_tags v.tidy.distinct_tags e.recipient_tag;
    distinct_by_purge =
        Distinct-index_add s.messages_by_purge (purge_hash e) e.id v.tidy.distinct_by_purge;
    distinct_by_message = v.tidy.distinct_by_message;
    purge_sets = λ h.
        IsIdSet-index_add s.messages_by_purge (purge_hash e) e.id h
          (v.tidy.purge_sets (purge_hash e)) (v.tidy.purge_sets h);
    message_sets = v.tidy.message_sets;
    distinct_purges = v.tidy.distinct_purges;
    lane = v.tidy.lane;
    few_messages = omega (arith, length-insert e.id e s.messages);
    few_acks = v.tidy.few_acks;
    few_purges = v.tidy.few_purges;
  }

  pub add_message_locked-Inv :
      length s.messages < s.max_messages → Inv (add_message_locked s e credential)
  unfolding add_message_locked
  add_message_locked-Inv room = record {
    distinct_messages = Distinct-insert e.id e s.messages v.distinct_messages;
    distinct_acks = v.distinct_acks;
    distinct_credential =
        ground (arith, Distinct-insert e.id credential s.message_credential, v.distinct_credential);
    filed_messages = added-filed;
    filed_acks = v.filed_acks;
    pairs = added-pairs;
    credentials = added-credentials;
    charged = added-IsCharged;
    message_seqs = added-seqs;
    ack_seqs = v.ack_seqs;
    tags = added-tags;
    by_purge = added-by_purge;
    by_message = v.by_message;
    tidy = added-Tidy room;
  }
