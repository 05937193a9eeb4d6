-- ===== src/Queue/Store.antt =====
-- internal/queue/store.go: the state of the queue, and the helpers that keep its maps in lock-step.
-- The lock is held over each helper's whole run, and the clock's reading is an argument.
use dee_relay.Base.{
  ℕ, ◌+◌, ◌-◌, ◌*◌, ◌%◌, ◌^◌, ◌||◌, Option, none, some, [], String, string_key, nat_key, ◌==◌, leb,
  if◌then◌else◌, is_empty, length, ℤ, pos, negsuc, or_default,
}
use Prim.Native.String.{◌++◌}
use dee_relay.Map.Counter.{bump, drop_one}
use dee_relay.Map.{Map, lookup, has, get_or, insert, remove}
use dee_relay.Model.{
  Time, Duration, after, is_zero, MessageEnvelope, AckRecord, PurgeRecord, purge_hash,
}
use dee_relay.Queue.Types.{duplicate, queue_full, expired, Result, ok, err, StoreConfig}

pub record TagBinding : Type 0 where
  pub tag : String
  pub records : ℕ

-- `map[string]map[string]struct{}`
abbrev pub Index : Type 0
Index = Map String (Map String (Unit {0}))

pub record Store : Type 0 where
  pub max_messages : ℕ
  pub max_acks : ℕ
  pub max_purges : ℕ
  pub max_per_pair : ℕ
  pub max_payload_bytes : ℕ
  pub max_ttl : Duration
  pub default_ttl : Duration
  pub messages : Map String MessageEnvelope
  pub acks : Map String AckRecord
  pub purges : Map String PurgeRecord
  pub pair_counts : Map String ℕ
  pub credential_counts : Map ℕ ℕ
  pub message_credential : Map String ℕ
  pub seq : ℕ
  pub message_seq : Map String ℕ
  pub ack_seq : Map String ℕ
  pub message_tags : Map String TagBinding
  pub messages_by_purge : Index
  pub acks_by_message : Index
  pub epoch : String

-- `if cfg.MaxAcks <= cfg.MaxMessages { cfg.MaxAcks = 2 * cfg.MaxMessages }`
ack_lane : ℕ → ℤ → ℕ
ack_lane messages (pos n) = if leb n messages then 2 * messages else n
ack_lane messages (negsuc n) = 2 * messages

abbrev hours : ℕ → Duration
hours n = n * 3_600_000_000_000

-- The epoch is drawn at random by the caller.
unfoldable pub new_store : StoreConfig → String → Store
unfolding ack_lane or_default
new_store cfg epoch = record {
  max_messages = or_default 1000 cfg.max_messages;
  max_acks = ack_lane (or_default 1000 cfg.max_messages) cfg.max_acks;
  max_purges = or_default 1000 cfg.max_purges;
  max_per_pair = or_default 10 cfg.max_per_pair;
  max_payload_bytes = or_default 8192 cfg.max_payload_bytes;
  max_ttl = or_default (hours 72) cfg.max_ttl;
  default_ttl = or_default (hours 24) cfg.default_ttl;
  messages = [];
  acks = [];
  purges = [];
  pair_counts = [];
  credential_counts = [];
  message_credential = [];
  seq = 0;
  message_seq = [];
  ack_seq = [];
  message_tags = [];
  messages_by_purge = [];
  acks_by_message = [];
  epoch = epoch;
}

unfoldable pub pair_key : String → String → String
pair_key sender recipient = sender ++ "\0" ++ recipient

-- `s.seq++` on a `uint64`
unfoldable pub next_seq : ℕ → ℕ
next_seq n = (n + 1) % 2 ^ 64

unfoldable pub index_add : Index → String → String → Index
index_add index key id =
    if is_empty key || is_empty id
    then index
    else insert key (insert id tt (get_or [] key index)) index

unfoldable pub index_remove : Index → String → String → Index
index_remove index key id = elim (lookup key index) [
  | none ↦ index
  | some ids ↦
      if length (remove id ids) == 0 then remove key index else insert key (remove id ids) index
]

abbrev pub no_binding : TagBinding
no_binding = record { tag = ""; records = 0 }

-- `binding.records++`, and the tag where there was none.
unfoldable pub raise_binding : String → TagBinding → TagBinding
raise_binding tag binding = record {
  tag = if is_empty binding.tag then tag else binding.tag;
  records = binding.records + 1;
}

unfoldable pub bind_message_tag : String → String → Map String TagBinding → Map String TagBinding
unfolding raise_binding
bind_message_tag message_id tag tags =
    if is_empty message_id
    then tags
    else insert message_id (raise_binding tag (get_or no_binding message_id tags)) tags

unfoldable pub release_message_tag : String → Map String TagBinding → Map String TagBinding
release_message_tag message_id tags = elim (lookup message_id tags) [
  | none ↦ tags
  | some binding ↦
      if leb binding.records 1
      then remove message_id tags
      else insert message_id (record binding { records = binding.records - 1 }) tags
]

unfoldable pub add_message_locked : Store → MessageEnvelope → ℕ → Store
add_message_locked s envelope credential = record s {
  messages = insert envelope.id envelope s.messages;
  pair_counts = bump (pair_key envelope.sender envelope.recipient) s.pair_counts;
  credential_counts =
      if credential == 0 then s.credential_counts else bump credential s.credential_counts;
  message_credential =
      if credential == 0
      then s.message_credential
      else insert envelope.id credential s.message_credential;
  seq = next_seq s.seq;
  message_seq = insert envelope.id (next_seq s.seq) s.message_seq;
  message_tags = bind_message_tag envelope.id envelope.recipient_tag s.message_tags;
  messages_by_purge = index_add s.messages_by_purge (purge_hash envelope) envelope.id;
}

-- The rest of `deleteMessageLocked` once the envelope is found.
unfoldable pub delete_held_message : Store → String → MessageEnvelope → Store
delete_held_message s id envelope = record s {
  messages = remove id s.messages;
  pair_counts = drop_one (pair_key envelope.sender envelope.recipient) s.pair_counts;
  credential_counts = elim (lookup id s.message_credential) [
    | none ↦ s.credential_counts
    | some credential ↦ drop_one credential s.credential_counts
  ];
  message_credential = elim (lookup id s.message_credential) [
    | none ↦ s.message_credential
    | some credential ↦ remove id s.message_credential
  ];
  message_seq = remove id s.message_seq;
  message_tags = release_message_tag id s.message_tags;
  messages_by_purge = index_remove s.messages_by_purge (purge_hash envelope) id;
}

unfoldable pub delete_message_locked : Store → String → Store
unfolding delete_held_message
delete_message_locked s id = elim (lookup id s.messages) [
  | none ↦ s
  | some envelope ↦ delete_held_message s id envelope
]

-- The writes of `addAckWithinLocked` once the ack is accepted.
unfoldable pub insert_ack : Store → AckRecord → Store
insert_ack s ack = record s {
  acks = insert ack.id ack s.acks;
  seq = next_seq s.seq;
  ack_seq = insert ack.id (next_seq s.seq) s.ack_seq;
  message_tags = bind_message_tag ack.message_id ack.recipient_tag s.message_tags;
  acks_by_message = index_add s.acks_by_message ack.message_id ack.id;
}

-- `if ack.ExpiresAt.IsZero() { ack.ExpiresAt = now.Add(s.defaultTTL) }`
unfoldable pub dated_ack : Store → Time → AckRecord → AckRecord
unfolding is_zero
dated_ack s now ack =
    if is_zero ack.expires_at then record ack { expires_at = now + s.default_ttl } else ack

unfoldable pub add_ack_within_locked : Store → AckRecord → Time → ℕ → Result Store
unfolding dated_ack insert_ack
add_ack_within_locked s ack now capacity =
    if has ack.id s.acks
    then err duplicate
    else if leb capacity (length s.acks)
    then err queue_full
    else if after (dated_ack s now ack).expires_at now
    then ok (insert_ack s (dated_ack s now ack))
    else err expired

unfoldable pub external_ack_capacity : Store → ℕ
external_ack_capacity s = s.max_acks - s.max_messages

unfoldable pub add_ack_locked : Store → AckRecord → Time → Result Store
unfolding add_ack_within_locked
add_ack_locked s ack now = add_ack_within_locked s ack now s.max_acks

unfoldable pub add_external_ack_locked : Store → AckRecord → Time → Result Store
unfolding add_ack_within_locked external_ack_capacity
add_external_ack_locked s ack now = add_ack_within_locked s ack now (external_ack_capacity s)

-- The rest of `deleteAckLocked` once the ack is found.
unfoldable pub delete_held_ack : Store → String → AckRecord → Store
delete_held_ack s id ack = record s {
  acks = remove id s.acks;
  ack_seq = remove id s.ack_seq;
  message_tags = release_message_tag ack.message_id s.message_tags;
  acks_by_message = index_remove s.acks_by_message ack.message_id id;
}

unfoldable pub delete_ack_locked : Store → String → Store
unfolding delete_held_ack
delete_ack_locked s id = elim (lookup id s.acks) [ none ↦ s | some ack ↦ delete_held_ack s id ack ]

unfoldable pub recipient_tag_for_message_locked : Store → String → Option String
recipient_tag_for_message_locked s message_id = elim (lookup message_id s.message_tags) [
  | none ↦ none
  | some binding ↦ some binding.tag
]
