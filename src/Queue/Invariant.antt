-- ===== src/Queue/Invariant.antt =====
-- internal/queue/store.go: what the comments on the fields of Store promise of its maps.
pub mod Indexes
pub mod Shapes
pub mod Messages
pub mod Deletes
pub mod Acks
use dee_relay.Base.{
  ℕ, ◌+◌, ◌≤◌, ◌<◌, ◌≡◌, ◌≢◌, Option, none, some, List, [], ◌∷◌, String, string_key, nat_key, ◌==◌,
  ◌/=◌, ◌&&◌, length, Bool,
}
use dee_relay.Map.{Map, lookup, get_or, Distinct}
use dee_relay.Map.Counter.{Counts}
use dee_relay.Map.Count.{count, is_held, one_if}
use dee_relay.Model.{MessageEnvelope, AckRecord, purge_hash}
use dee_relay.Queue.Store.{Store, Index, TagBinding, pair_key}

-- A binding counts the records that name its message, and is absent when none does.
abbrev pub Binds : Option TagBinding → ℕ → Type 0
Binds none n = n ≡ 0
Binds (some b) n = (b.records ≡ n) × (0 < n)

abbrev pub IsFiledMessage : String → Option MessageEnvelope → Type 0
IsFiledMessage key none = Unit
IsFiledMessage key (some e) = (e.id ≡ key) × (key ≢ "")

abbrev pub IsFiledAck : String → Option AckRecord → Type 0
IsFiledAck key none = Unit
IsFiledAck key (some a) = (a.id ≡ key) × (key ≢ "") × (a.message_id ≢ "")

abbrev pub IsCharged : Option ℕ → Option MessageEnvelope → Type 0
IsCharged none o = Unit
IsCharged (some c) o = (c ≢ 0) × (is_held o ≡ 1)

-- Whether an index lists an id under a key, as a number.
abbrev pub listed : String → String → Index → ℕ
listed key id index = is_held (lookup id (get_or [] key index))

abbrev pub under_purge : String → Option MessageEnvelope → ℕ
under_purge hash none = 0
under_purge hash (some e) = one_if (purge_hash e == hash && hash /= "")

abbrev pub under_message : String → Option AckRecord → ℕ
under_message message_id none = 0
under_message message_id (some a) = one_if (a.message_id == message_id)

abbrev pub in_lane : String → MessageEnvelope → Bool
in_lane key e = pair_key e.sender e.recipient == key

abbrev pub names : String → AckRecord → Bool
names message_id a = a.message_id == message_id

abbrev pub charged_to : ℕ → ℕ → Bool
charged_to credential c = c == credential

-- A set of an index: never empty, and no id twice.
abbrev pub IsIdSet : Option (Map String (Unit {0})) → Type 0
IsIdSet none = Unit
IsIdSet (some ids) = Distinct ids × (0 < length ids)

-- No key stands twice in a map, no set of an index is empty, and no map outgrows its cap.
pub record Tidy (s : Store) : Type 0 where
  pub distinct_pairs : Distinct s.pair_counts
  pub distinct_credentials : Distinct s.credential_counts
  pub distinct_message_seq : Distinct s.message_seq
  pub distinct_ack_seq : Distinct s.ack_seq
  pub distinct_tags : Distinct s.message_tags
  pub distinct_by_purge : Distinct s.messages_by_purge
  pub distinct_by_message : Distinct s.acks_by_message
  pub purge_sets : (hash : String) → IsIdSet (lookup hash s.messages_by_purge)
  pub message_sets : (id : String) → IsIdSet (lookup id s.acks_by_message)
  pub distinct_purges : Distinct s.purges
  pub lane : s.max_messages < s.max_acks
  pub few_messages : length s.messages ≤ s.max_messages
  pub few_acks : length s.acks ≤ s.max_acks
  pub few_purges : length s.purges ≤ s.max_purges

-- The maps of a store are in lock-step.
pub record Inv (s : Store) : Type 0 where
  pub distinct_messages : Distinct s.messages
  pub distinct_acks : Distinct s.acks
  pub distinct_credential : Distinct s.message_credential
  pub filed_messages : (id : String) → IsFiledMessage id (lookup id s.messages)
  pub filed_acks : (id : String) → IsFiledAck id (lookup id s.acks)
  pub pairs : (key : String) → Counts (lookup key s.pair_counts) (count (in_lane key) s.messages)
  pub credentials :
      (c : ℕ) → Counts (lookup c s.credential_counts) (count (charged_to c) s.message_credential)
  pub charged : (id : String) → IsCharged (lookup id s.message_credential) (lookup id s.messages)
  pub message_seqs :
      (id : String) → is_held (lookup id s.message_seq) ≡ is_held (lookup id s.messages)
  pub ack_seqs : (id : String) → is_held (lookup id s.ack_seq) ≡ is_held (lookup id s.acks)
  pub tags :
      (id : String)
      → Binds (lookup id s.message_tags) (is_held (lookup id s.messages) + count (names id) s.acks)
  pub by_purge :
      (hash id : String)
      → listed hash id s.messages_by_purge ≡ under_purge hash (lookup id s.messages)
  pub by_message :
      (message_id id : String)
      → listed message_id id s.acks_by_message ≡ under_message message_id (lookup id s.acks)
  pub tidy : Tidy s
