-- ===== src/Queue/Invariant/Deletes.antt =====
-- deleteMessageLocked keeps the maps in lock-step.
use dee_relay.Base.{ℕ, ◌+◌, ◌≡◌, some, String, string_key, nat_key, arith, Option-cases, inl, inr}
use dee_relay.Map.{lookup, remove, lookup-remove, Distinct-remove}
use dee_relay.Map.Counter.{drop_one-Counts, Distinct-drop_one, Counts}
use dee_relay.Map.Count.{count, count-remove, length-remove, is_held}
use dee_relay.Model.{MessageEnvelope, purge_hash}
use dee_relay.Queue.Store.{Store, pair_key, delete_held_message, delete_message_locked}
use dee_relay.Queue.Invariant.Shapes.{Distinct-release, Distinct-index_remove, IsIdSet-index_remove}
use dee_relay.Queue.Invariant.{
  Inv, Tidy, Binds, IsCharged, in_lane, charged_to, names, listed, under_purge,
}
use dee_relay.Queue.Invariant.Indexes.{release-Binds, listed-index_remove}

module _ {s : Store} (id : String) (e : MessageEnvelope) (v : Inv s)
    (found : lookup id s.messages ≡ some e) where
  deleted-pairs :
      (key : String)
      → Counts
          (lookup key (delete_held_message s id e).pair_counts)
          (count (in_lane key) (delete_held_message s id e).messages)
  unfolding delete_held_message
  deleted-pairs key = ground (
    arith,
    v.pairs key,
    count-remove (in_lane key) id s.messages v.distinct_messages,
    drop_one-Counts s.pair_counts (pair_key e.sender e.recipient) key
        (count (in_lane key) (remove id s.messages)),
  )

  deleted-credentials :
      (c : ℕ)
      → Counts
          (lookup c (delete_held_message s id e).credential_counts)
          (count (charged_to c) (delete_held_message s id e).message_credential)
  unfolding delete_held_message
  deleted-credentials c = elim (Option-cases (lookup id s.message_credential)) [
    | inl none_held ↦ rw (none_held, delete_held_message) (v.credentials c)
    | inr (credential, paid) ↦
        rw (paid, delete_held_message)
          (ground (
            arith,
            v.credentials c,
            count-remove (charged_to c) id s.message_credential v.distinct_credential,
            drop_one-Counts s.credential_counts credential c
                (count (charged_to c) (remove id s.message_credential)),
          ))
  ]

  deleted-IsCharged :
      (j : String)
      → IsCharged
          (lookup j (delete_held_message s id e).message_credential)
          (lookup j (delete_held_message s id e).messages)
  unfolding delete_held_message
  deleted-IsCharged j =
      ground
        (arith, v.charged j, lookup-remove id j s.message_credential, lookup-remove id j s.messages)

  deleted-tags :
      (j : String)
      → Binds
          (lookup j (delete_held_message s id e).message_tags)
          (is_held (lookup j (delete_held_message s id e).messages) + count (names j) s.acks)
  unfolding delete_held_message
  deleted-tags j = ground (
    arith,
    v.tags j,
    lookup-remove id j s.messages,
    release-Binds s.message_tags id j
        (is_held (lookup j (remove id s.messages)) + count (names j) s.acks),
  )

  deleted-by_purge :
      (hash j : String)
      → listed hash j (delete_held_message s id e).messages_by_purge
        ≡ under_purge hash (lookup j (delete_held_message s id e).messages)
  unfolding delete_held_message
  deleted-by_purge hash j = ground (
    arith,
    v.by_purge hash j,
    lookup-remove id j s.messages,
    listed-index_remove s.messages_by_purge (purge_hash e) id hash j,
  )

  deleted-Tidy : Tidy (delete_held_message s id e)
  unfolding delete_held_message
  deleted-Tidy = record {
    distinct_pairs =
        Distinct-drop_one (pair_key e.sender e.recipient) s.pair_counts v.tidy.distinct_pairs;
    distinct_credentials = elim (Option-cases (lookup id s.message_credential)) [
      | inl none_held ↦ rw (none_held, delete_held_message) v.tidy.distinct_credentials
      | inr (c, paid) ↦
          rw (paid, delete_held_message)
            (Distinct-drop_one c s.credential_counts v.tidy.distinct_credentials)
    ];
    distinct_message_seq = Distinct-remove id s.message_seq v.tidy.distinct_message_seq;
    distinct_ack_seq = v.tidy.distinct_ack_seq;
    distinct_tags = Distinct-release id s.message_tags v.tidy.distinct_tags;
    distinct_by_purge =
        Distinct-index_remove s.messages_by_purge (purge_hash e) id v.tidy.distinct_by_purge;
    distinct_by_message = v.tidy.distinct_by_message;
    purge_sets = λ h.
        IsIdSet-index_remove s.messages_by_purge (purge_hash e) id h
          (v.tidy.purge_sets (purge_hash e)) (v.tidy.purge_sets h);
    message_sets = v.tidy.message_sets;
    distinct_purges = v.tidy.distinct_purges;
    lane = v.tidy.lane;
    few_messages =
        omega (arith, length-remove id s.messages v.distinct_messages, v.tidy.few_messages);
    few_acks = v.tidy.few_acks;
    few_purges = v.tidy.few_purges;
  }

  delete_held_message-Inv : Inv (delete_held_message s id e)
  unfolding delete_held_message
  delete_held_message-Inv = record {
    distinct_messages = Distinct-remove id s.messages v.distinct_messages;
    distinct_acks = v.distinct_acks;
    distinct_credential =
        ground (arith, Distinct-remove id s.message_credential, v.distinct_credential);
    filed_messages = λ j. ground (arith, v.filed_messages j, lookup-remove id j s.messages);
    filed_acks = v.filed_acks;
    pairs = deleted-pairs;
    credentials = deleted-credentials;
    charged = deleted-IsCharged;
    message_seqs = λ j.
        ground (
          arith,
          v.message_seqs j,
          lookup-remove id j s.messages,
          lookup-remove id j s.message_seq,
        );
    ack_seqs = v.ack_seqs;
    tags = deleted-tags;
    by_purge = deleted-by_purge;
    by_message = v.by_message;
    tidy = deleted-Tidy;
  }

pub delete_message_locked-Inv : {s : Store} (id : String) → Inv s → Inv (delete_message_locked s id)
unfolding delete_message_locked
delete_message_locked-Inv {s} id v = elim (Option-cases (lookup id s.messages)) [
  | inl e ↦ rw (e, delete_message_locked) v
  | inr (m, e) ↦ rw (e, delete_message_locked) (delete_held_message-Inv id m v e)
]
