-- ===== src/Queue/Post.antt =====
-- internal/queue/store.go: AddMessage and AddMessageWithGrant, the write path of an envelope.
use dee_relay.Base.{
  ◌+◌, Bool, false, ◌||◌, ◌&&◌, Option, none, some, String, string_key, nat_key, ◌/=◌, ltb, leb,
  if◌then◌else◌, is_empty, trim_space, not, length,
}
use Prim.Native.String.{len, ◌++◌}
use dee_relay.Map.{has, get_or, lookup}
use dee_relay.Model.{
  Time, Duration, after, is_zero, zero_time, MessageEnvelope, AckRecord, AckType, purge_hash,
}
use dee_relay.Queue.Types.{
  Error, duplicate, expired, queue_full, pair_quota_full, slots_full, payload_too_large, invalid,
  ok, err, Grant, no_grant, lower_of, lower_of_duration,
}
use dee_relay.Queue.Store.{Store, pair_key, add_ack_locked, add_message_locked}

-- `model.AckRecord{}`
unfoldable pub no_ack : AckRecord
no_ack = record {
  id = "";
  message_id = "";
  sender = "";
  recipient = "";
  type = AckType.other "";
  created_at = zero_time;
  expires_at = zero_time;
  node_id = "";
  signature = "";
  sender_tag = "";
  recipient_tag = "";
  reason = "";
}

unfoldable pub node_received_ack : MessageEnvelope → String → Time → AckRecord
node_received_ack envelope node_id now = record {
  id = envelope.id ++ ":node_received";
  message_id = envelope.id;
  sender = envelope.sender;
  recipient = envelope.recipient;
  type = AckType.node_received;
  created_at = now;
  expires_at = envelope.expires_at;
  node_id = node_id;
  signature = "";
  sender_tag = envelope.sender_tag;
  recipient_tag = envelope.recipient_tag;
  reason = "";
}

-- A requested expiry, or the default one, lowered to `ceiling` from now.
unfoldable pub clamp_expiry : Store → Time → Duration → Time → Time
unfolding is_zero
clamp_expiry s now ceiling t =
    let wanted = (if is_zero t then now + s.default_ttl else t) in
    if after wanted (now + ceiling) then now + ceiling else wanted

unfoldable pub created_or_now : Time → Time → Time
unfolding is_zero
created_or_now now t = if is_zero t then now else t

unfoldable pub trim_envelope : MessageEnvelope → MessageEnvelope
trim_envelope e = record e {
  id = trim_space e.id;
  sender = trim_space e.sender;
  recipient = trim_space e.recipient;
  encrypted_payload = trim_space e.encrypted_payload;
  recipient_tag = trim_space e.recipient_tag;
  sender_tag = trim_space e.sender_tag;
}

unfoldable pub stamp_envelope : Store → Time → Duration → MessageEnvelope → MessageEnvelope
unfolding clamp_expiry created_or_now
stamp_envelope s now ceiling e = record e {
  created_at = created_or_now now e.created_at;
  expires_at = clamp_expiry s now ceiling e.expires_at;
}

unfoldable pub lacks_route : MessageEnvelope → Bool
lacks_route e =
    is_empty e.id || is_empty e.sender || is_empty e.recipient || is_empty e.encrypted_payload

-- A live tombstone stands for the hash.
unfoldable pub is_purged : Store → Time → String → Bool
is_purged s now hash =
    not (is_empty hash)
    && elim (lookup hash s.purges) [ none ↦ false | some purge ↦ after purge.expires_at now ]

-- The refusals in the order of the source, each with the ack that it answers.
unfoldable pub refuse_message :
    Store → Time → String → Grant → MessageEnvelope → Option (AckRecord × Error)
unfolding lacks_route is_purged lower_of
refuse_message s now node_id grant e =
    if lacks_route e
    then some (no_ack, invalid)
    else if ltb s.max_payload_bytes (len e.encrypted_payload)
    then some (no_ack, payload_too_large)
    else if not (after e.expires_at now)
    then some (no_ack, expired)
    else if has e.id s.messages
    then some (node_received_ack e node_id now, duplicate)
    else if is_purged s now (purge_hash e)
    then some (no_ack, duplicate)
    else if leb (lower_of s.max_per_pair grant.max_per_pair)
        (get_or 0 (pair_key e.sender e.recipient) s.pair_counts)
    then some (no_ack, pair_quota_full)
    else if grant.credential /= 0
        && leb (lower_of s.max_messages grant.slots) (get_or 0 grant.credential s.credential_counts)
    then some (no_ack, slots_full)
    else if leb s.max_messages (length s.messages)
    then some (no_ack, queue_full)
    else none

unfoldable pub accept_message :
    Store → Time → String → Grant → MessageEnvelope → Store × AckRecord × Option Error
accept_message s now node_id grant e =
    let ack = node_received_ack e node_id now in
    elim (add_ack_locked s ack now) [
      | err error ↦ (s, no_ack, some error)
      | ok s' ↦ (add_message_locked s' e grant.credential, ack, none)
    ]

unfoldable pub add_message_with_grant :
    Store → Time → MessageEnvelope → String → Grant → Store × AckRecord × Option Error
unfolding trim_envelope stamp_envelope refuse_message accept_message
add_message_with_grant s now envelope node_id grant =
    let ceiling = lower_of_duration s.max_ttl grant.retention in
    let e = stamp_envelope s now ceiling (trim_envelope envelope) in
    elim (refuse_message s now node_id grant e) [
      | some (ack, error) ↦ (s, ack, some error)
      | none ↦ accept_message s now node_id grant e
    ]

unfoldable pub add_message :
    Store → Time → MessageEnvelope → String → Store × AckRecord × Option Error
unfolding add_message_with_grant
add_message s now envelope node_id = add_message_with_grant s now envelope node_id no_grant
