-- ===== src/Http/Mail.antt =====
-- internal/httpapi/server.go: the posts and the fetches of messages and acks.
use dee_relay.Base.{
  ℕ, Bool, true, false, ◌&&◌, ◌||◌, Option, none, some, List, String, if◌then◌else◌, is_empty, ℤ,
  pos,
}
use dee_relay.Model.{Time, MessageEnvelope, AckRecord}
use dee_relay.Admission.Types.{Grant}
use dee_relay.Admission.Gate.{queue_grant}
use dee_relay.Queue.Types.{
  Error, duplicate, expired, payload_too_large, pair_quota_full, slots_full, queue_full, not_owned,
}
use dee_relay.Queue.Auth.{Auth}
use dee_relay.Queue.Post.{add_message_with_grant}
use dee_relay.Queue.Acks.{add_ack_with_grant}
use dee_relay.Queue.Fetch.{messages_for_recipient, acks_for_sender}
use dee_relay.Http.Types.{
  Config, Server, Body, decoded, Reply, refusal, posted, messages, acks, decode_error, parse_limit,
}
use dee_relay.Http.Guards.{when_admitted, queue_auth}

unfoldable pub post_reply : AckRecord → Option Error → Reply
post_reply ack none = posted 202 false (some ack)
post_reply ack (some duplicate) = posted 200 true (some ack)
post_reply ack (some expired) = refusal 410 "expired"
post_reply ack (some payload_too_large) = refusal 413 "payload_too_large"
post_reply ack (some pair_quota_full) = refusal 429 "pair_quota_full"
post_reply ack (some slots_full) = refusal 429 "circle_slots_full"
post_reply ack (some queue_full) = refusal 429 "queue_full"
post_reply ack (some _) = refusal 400 "invalid_message"

unfoldable pub lacks_tag : Config → MessageEnvelope → Bool
lacks_tag cfg e = cfg.require_fetch_auth && (is_empty e.recipient_tag || is_empty e.sender_tag)

unfoldable pub post_decoded : Server → Time → Grant → Body MessageEnvelope → Server × Reply
unfolding post_reply lacks_tag
post_decoded s now grant (decoded e) =
    if lacks_tag s.cfg e
    then (s, refusal 400 "fetch_tag_required")
    else let (store, ack, error) =
        add_message_with_grant s.store now e s.cfg.node_id (queue_grant grant) in
      (record s { store = store }, post_reply ack error)
post_decoded s now grant body = (s, decode_error body "invalid_json")

unfoldable pub handle_post_message :
    Server → (ℕ → Time) → String → Body MessageEnvelope → Server × Reply
unfolding when_admitted post_decoded
handle_post_message s clock token body =
    when_admitted s clock token (λ t grant. post_decoded t (clock 2) grant body)

unfoldable pub ack_reply : Option Error → Reply
ack_reply none = posted 202 false none
ack_reply (some duplicate) = posted 200 true none
ack_reply (some expired) = refusal 410 "expired"
ack_reply (some not_owned) = refusal 403 "ack_not_authorized"
ack_reply (some queue_full) = refusal 429 "queue_full"
ack_reply (some _) = refusal 400 "invalid_ack"

unfoldable pub post_ack_decoded : Server → Time → Grant → Auth → Body AckRecord → Server × Reply
unfolding ack_reply
post_ack_decoded s now grant auth (decoded ack) =
    let (store, error) =
      add_ack_with_grant s.store now ack s.cfg.node_id (queue_grant grant) auth in
    (record s { store = store }, ack_reply error)
post_ack_decoded s now grant auth body = (s, decode_error body "invalid_json")

module _ (digest : String → String) where
  -- `auth, ok := s.queueAuth(w, r)`, and the handler's rest.
  unfoldable pub with_auth : Server → List String → (Auth → Server × Reply) → Server × Reply
  unfolding queue_auth
  with_auth s secrets rest = elim (queue_auth digest s.cfg secrets) [
    | none ↦ (s, refusal 401 "capability_required")
    | some auth ↦ rest auth
  ]

  unfoldable pub get_messages_with : Server → Time → String → Option ℤ → Auth → Server × Reply
  unfolding parse_limit
  get_messages_with s now recipient limit auth =
      let (store, found) =
        messages_for_recipient s.store now recipient (pos (parse_limit limit 100)) auth in
      (record s { store = store }, messages found)

  unfoldable pub get_messages_admitted :
      Server → Time → List String → String → Option ℤ → Server × Reply
  unfolding with_auth get_messages_with
  get_messages_admitted s now secrets recipient limit =
      if is_empty recipient
      then (s, refusal 400 "missing_recipient")
      else with_auth s secrets (get_messages_with s now recipient limit)

  unfoldable pub handle_get_messages :
      Server → (ℕ → Time) → String → List String → String → Option ℤ → Server × Reply
  unfolding when_admitted get_messages_admitted
  handle_get_messages s clock token secrets recipient limit =
      when_admitted s clock token
        (λ t grant. get_messages_admitted t (clock 2) secrets recipient limit)

  unfoldable pub handle_post_ack :
      Server → (ℕ → Time) → String → List String → Body AckRecord → Server × Reply
  unfolding when_admitted with_auth post_ack_decoded
  handle_post_ack s clock token secrets body =
      when_admitted s clock token
        (λ t grant. with_auth t secrets (λ auth. post_ack_decoded t (clock 2) grant auth body))

  unfoldable pub get_acks_with : Server → Time → String → Option ℤ → Auth → Server × Reply
  unfolding parse_limit
  get_acks_with s now sender limit auth =
      let (store, found) = acks_for_sender s.store now sender (pos (parse_limit limit 100)) auth in
      (record s { store = store }, acks found)

  unfoldable pub get_acks_admitted :
      Server → Time → List String → String → Option ℤ → Server × Reply
  unfolding with_auth get_acks_with
  get_acks_admitted s now secrets sender limit =
      if is_empty sender
      then (s, refusal 400 "missing_sender")
      else with_auth s secrets (get_acks_with s now sender limit)

  unfoldable pub handle_get_acks :
      Server → (ℕ → Time) → String → List String → String → Option ℤ → Server × Reply
  unfolding when_admitted get_acks_admitted
  handle_get_acks s clock token secrets sender limit =
      when_admitted s clock token (λ t grant. get_acks_admitted t (clock 2) secrets sender limit)
