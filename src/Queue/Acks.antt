-- ===== src/Queue/Acks.antt =====
-- internal/queue/store.go: AddAck and AddAckWithGrant, the write path of an ack.
use dee_relay.Base.{
  ℕ, Bool, true, false, ◌||◌, Option, none, some, String, string_key, ltb, if◌then◌else◌, is_empty,
  trim_space, not,
}
use Prim.Native.String.{len}
use dee_relay.Map.{has}
use dee_relay.Model.{Time, Duration, after, AckRecord, AckType}
use dee_relay.Queue.Auth.{Auth, permits, trusted_auth}
use dee_relay.Queue.Types.{
  Error, duplicate, expired, invalid, not_owned, ok, err, Grant, no_grant, lower_of_duration,
}
use dee_relay.Queue.Store.{
  Store, add_external_ack_locked, delete_message_locked, recipient_tag_for_message_locked,
}
use dee_relay.Queue.Post.{clamp_expiry, created_or_now}

abbrev pub max_ack_reason_bytes : ℕ
max_ack_reason_bytes = 64

unfoldable pub bounded_ack_reason : String → String
bounded_ack_reason reason =
    let trimmed = trim_space reason in
    if ltb max_ack_reason_bytes (len trimmed) then "" else trimmed

unfoldable pub valid_ack_type : AckType → Bool
valid_ack_type (AckType.other text) = false
valid_ack_type _ = true

unfoldable pub deletes_queued_message : AckType → Bool
deletes_queued_message AckType.node_received = false
deletes_queued_message (AckType.other text) = false
deletes_queued_message _ = true

unfoldable pub trim_ack : AckRecord → AckRecord
unfolding bounded_ack_reason
trim_ack a = record a {
  id = trim_space a.id;
  message_id = trim_space a.message_id;
  sender = trim_space a.sender;
  recipient = trim_space a.recipient;
  sender_tag = trim_space a.sender_tag;
  reason = bounded_ack_reason a.reason;
}

unfoldable pub is_malformed_ack : AckRecord → Bool
unfolding valid_ack_type
is_malformed_ack a =
    is_empty a.id
    || is_empty a.message_id
    || is_empty a.sender
    || is_empty a.recipient
    || not (valid_ack_type a.type)

unfoldable pub stamp_ack : Store → Time → Duration → AckRecord → AckRecord
unfolding clamp_expiry created_or_now
stamp_ack s now ceiling a = record a {
  created_at = created_or_now now a.created_at;
  expires_at = clamp_expiry s now ceiling a.expires_at;
}

-- The duplicate check, the insertion and the deletion of the acked message.
unfoldable pub record_ack : Store → Time → AckRecord → Store × Option Error
unfolding deletes_queued_message
record_ack s now a =
    if has a.id s.acks then (s, some duplicate) else elim (add_external_ack_locked s a now) [
      | err error ↦ (s, some error)
      | ok s' ↦ (
        if deletes_queued_message a.type then delete_message_locked s' a.message_id else s',
        none,
      )
    ]

-- The ack under the binding that this relay holds for its message.
unfoldable pub add_owned_ack : Store → Time → Auth → AckRecord → Store × Option Error
unfolding record_ack
add_owned_ack s now auth a = elim (recipient_tag_for_message_locked s a.message_id) [
  | none ↦ record_ack s now (record a { recipient_tag = "" })
  | some tag ↦
      if permits auth tag
      then record_ack s now (record a { recipient_tag = tag })
      else (s, some not_owned)
]

unfoldable pub add_ack_with_grant :
    Store → Time → AckRecord → String → Grant → Auth → Store × Option Error
unfolding trim_ack stamp_ack is_malformed_ack add_owned_ack
add_ack_with_grant s now ack node_id grant auth =
    let ceiling = lower_of_duration s.max_ttl grant.retention in
    let stamped = stamp_ack s now ceiling (trim_ack ack) in
    let a = record stamped { node_id = if is_empty ack.node_id then node_id else ack.node_id } in
    if is_malformed_ack a
    then (s, some invalid)
    else if not (after a.expires_at now)
    then (s, some expired)
    else add_owned_ack s now auth a

unfoldable pub add_ack : Store → Time → AckRecord → String → Store × Option Error
unfolding add_ack_with_grant
add_ack s now ack node_id = add_ack_with_grant s now ack node_id no_grant trusted_auth
