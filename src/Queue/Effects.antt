-- ===== src/Queue/Effects.antt =====
-- What each helper of the store does to the records, and the fields that it leaves alone.
use dee_relay.Base.{ℕ, ◌≡◌, String, string_key, arith}
use dee_relay.Map.{remove, remove_absent}
use dee_relay.Model.{MessageEnvelope, AckRecord}
use dee_relay.Queue.Store.{
  Store, delete_message_locked, delete_ack_locked, insert_ack, add_message_locked,
}

-- The caps, the windows, the tombstones and the epoch of two stores agree.
pub record SameBox (s t : Store) : Type 0 where
  pub max_messages : t.max_messages ≡ s.max_messages
  pub max_acks : t.max_acks ≡ s.max_acks
  pub max_per_pair : t.max_per_pair ≡ s.max_per_pair
  pub max_purges : t.max_purges ≡ s.max_purges
  pub max_payload_bytes : t.max_payload_bytes ≡ s.max_payload_bytes
  pub max_ttl : t.max_ttl ≡ s.max_ttl
  pub default_ttl : t.default_ttl ≡ s.default_ttl
  pub epoch : t.epoch ≡ s.epoch

pub SameBox-refl : (s : Store) → SameBox s s
SameBox-refl s = ground arith

pub SameBox-trans : (s t u : Store) → SameBox s t → SameBox t u → SameBox s u
SameBox-trans s t u a b = ground arith

module _ (s : Store) (id : String) where
  pub messages-delete_message_locked : (delete_message_locked s id).messages ≡ remove id s.messages
  unfolding delete_message_locked
  messages-delete_message_locked = ground (arith, remove_absent id s.messages)

  pub acks-delete_message_locked : (delete_message_locked s id).acks ≡ s.acks
  unfolding delete_message_locked
  acks-delete_message_locked = ground arith

  pub purges-delete_message_locked : (delete_message_locked s id).purges ≡ s.purges
  unfolding delete_message_locked
  purges-delete_message_locked = ground arith

  pub by_message-delete_message_locked :
      (delete_message_locked s id).acks_by_message ≡ s.acks_by_message
  unfolding delete_message_locked
  by_message-delete_message_locked = ground arith

  pub delete_message_locked-SameBox : SameBox s (delete_message_locked s id)
  unfolding delete_message_locked
  delete_message_locked-SameBox = ground arith

  pub acks-delete_ack_locked : (delete_ack_locked s id).acks ≡ remove id s.acks
  unfolding delete_ack_locked
  acks-delete_ack_locked = ground (arith, remove_absent id s.acks)

  pub messages-delete_ack_locked : (delete_ack_locked s id).messages ≡ s.messages
  unfolding delete_ack_locked
  messages-delete_ack_locked = ground arith

  pub purges-delete_ack_locked : (delete_ack_locked s id).purges ≡ s.purges
  unfolding delete_ack_locked
  purges-delete_ack_locked = ground arith

  pub delete_ack_locked-SameBox : SameBox s (delete_ack_locked s id)
  unfolding delete_ack_locked
  delete_ack_locked-SameBox = ground arith

pub insert_ack-SameBox : (s : Store) (a : AckRecord) → SameBox s (insert_ack s a)
unfolding insert_ack
insert_ack-SameBox s a = ground arith

pub add_message_locked-SameBox :
    (s : Store) (e : MessageEnvelope) (c : ℕ) → SameBox s (add_message_locked s e c)
unfolding add_message_locked
add_message_locked-SameBox s e c = ground arith
