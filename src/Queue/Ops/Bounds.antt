-- ===== src/Queue/Ops/Bounds.antt =====
-- No bookkeeping map outgrows the records: the ceiling that the box's memory is sized by.
use dee_relay.Base.{
  ℕ, ◌+◌, ◌≤◌, ◌≡◌, refl, ◌⊎◌, inl, inr, Option, none, some, [], ◌∷◌, String, string_key, nat_key,
  length, arith, ◌==◌,
}
use dee_relay.Map.{Map, lookup, get_or}
use dee_relay.Map.Count.{count, is_held, held-le-count}
use dee_relay.Map.Domain.{domain_le}
use dee_relay.Model.{MessageEnvelope, AckRecord, purge_hash}
use dee_relay.Queue.Store.{Store, pair_key, Index}
use dee_relay.Queue.Invariant.{Inv, IsIdSet, names}

-- Every map is within the caps of the records.
pub record IsBounded (s : Store) : Type 0 where
  pub messages : length s.messages ≤ s.max_messages
  pub acks : length s.acks ≤ s.max_acks
  pub purges : length s.purges ≤ s.max_purges
  pub message_seq : length s.message_seq ≤ s.max_messages
  pub ack_seq : length s.ack_seq ≤ s.max_acks
  pub message_credential : length s.message_credential ≤ s.max_messages
  pub pair_counts : length s.pair_counts ≤ s.max_messages
  pub credential_counts : length s.credential_counts ≤ s.max_messages
  pub message_tags : length s.message_tags ≤ s.max_messages + s.max_acks
  pub messages_by_purge : length s.messages_by_purge ≤ s.max_messages
  pub acks_by_message : length s.acks_by_message ≤ s.max_acks

abbrev no_messages : Map String MessageEnvelope
no_messages = []

abbrev no_acks : Map String AckRecord
no_acks = []

abbrev no_ids : Map String ℕ
no_ids = []

abbrev no_sets : Index
no_sets = []

abbrev no_numbers : Map ℕ ℕ
no_numbers = []

-- A set that is not empty lists its first id.
first_listed :
    (o : Option (Map String (Unit {0})))
    → IsIdSet o
    → (o ≡ none)
      ⊎ ((ids : Map String (Unit {0})) × (i : String) × (o ≡ some ids) × (lookup i ids ≡ some tt))
unfolding lookup
first_listed none h = inl refl
first_listed (some []) h = absurd (omega arith)
first_listed (some ((i, u) ∷ ids)) h = inr ((i, u) ∷ ids, i, refl, ground arith)

module _ {s : Store} (v : Inv s) where
  purge_key :
      (hash : String)
      → is_held (lookup hash s.messages_by_purge) ≤ 0 + count (λ e. purge_hash e == hash) s.messages
  unfolding get_or
  purge_key hash = elim (first_listed (lookup hash s.messages_by_purge) (v.tidy.purge_sets hash)) [
    | inl e ↦ rw e (omega arith)
    | inr (ids, i, e, l) ↦
        ground (arith, v.by_purge hash i, held-le-count (λ m. purge_hash m == hash) i s.messages)
  ]

  message_key : (id : String) → is_held (lookup id s.acks_by_message) ≤ 0 + count (names id) s.acks
  unfolding get_or
  message_key id = elim (first_listed (lookup id s.acks_by_message) (v.tidy.message_sets id)) [
    | inl e ↦ rw e (omega arith)
    | inr (ids, i, e, l) ↦ ground (arith, v.by_message id i, held-le-count (names id) i s.acks)
  ]

  purge_index_le : length s.messages_by_purge ≤ length s.messages
  unfolding lookup
  purge_index_le = omega (
    arith,
    domain_le purge_hash s.messages_by_purge no_sets s.messages v.tidy.distinct_by_purge tt
        purge_key,
  )

  message_index_le : length s.acks_by_message ≤ length s.acks
  unfolding lookup
  message_index_le = omega (
    arith,
    domain_le (λ (a : AckRecord). a.message_id) s.acks_by_message no_sets s.acks
        v.tidy.distinct_by_message tt message_key,
  )

  seqs_le : length s.message_seq ≤ length s.messages
  seqs_le = omega (
    arith,
    domain_le (λ (e : MessageEnvelope). e.id) s.message_seq s.messages no_messages
        v.tidy.distinct_message_seq v.distinct_messages (λ key. omega (arith, v.message_seqs key)),
  )

  ack_seqs_le : length s.ack_seq ≤ length s.acks
  ack_seqs_le = omega (
    arith,
    domain_le (λ (a : AckRecord). a.id) s.ack_seq s.acks no_acks v.tidy.distinct_ack_seq
        v.distinct_acks (λ key. omega (arith, v.ack_seqs key)),
  )

  charges_le : length s.message_credential ≤ length s.messages
  charges_le = omega (
    arith,
    domain_le (λ (e : MessageEnvelope). e.id) s.message_credential s.messages no_messages
        v.distinct_credential v.distinct_messages (λ key. ground (arith, v.charged key)),
  )

  pairs_le : length s.pair_counts ≤ length s.messages
  pairs_le = omega (
    arith,
    domain_le (λ (e : MessageEnvelope). pair_key e.sender e.recipient) s.pair_counts no_ids
        s.messages v.tidy.distinct_pairs tt (λ key. ground (arith, v.pairs key)),
  )

  credentials_le : length s.credential_counts ≤ length s.message_credential
  credentials_le = omega (
    arith,
    domain_le (λ (c : ℕ). c) s.credential_counts no_numbers s.message_credential
        v.tidy.distinct_credentials tt (λ key. ground (arith, v.credentials key)),
  )

  tags_le : length s.message_tags ≤ length s.messages + length s.acks
  tags_le = omega (
    arith,
    domain_le (λ (a : AckRecord). a.message_id) s.message_tags s.messages s.acks
        v.tidy.distinct_tags v.distinct_messages (λ key. ground (arith, v.tags key)),
  )

  -- In lock-step, the counters and the indexes never hold more entries than the record caps allow.
  pub Inv-IsBounded : IsBounded s
  Inv-IsBounded = record {
    messages = v.tidy.few_messages;
    acks = v.tidy.few_acks;
    purges = v.tidy.few_purges;
    message_seq = omega (arith, seqs_le, v.tidy.few_messages);
    ack_seq = omega (arith, ack_seqs_le, v.tidy.few_acks);
    message_credential = omega (arith, charges_le, v.tidy.few_messages);
    pair_counts = omega (arith, pairs_le, v.tidy.few_messages);
    credential_counts = omega (arith, credentials_le, charges_le, v.tidy.few_messages);
    message_tags = omega (arith, tags_le, v.tidy.few_messages, v.tidy.few_acks);
    messages_by_purge = omega (arith, purge_index_le, v.tidy.few_messages);
    acks_by_message = omega (arith, message_index_le, v.tidy.few_acks);
  }
