-- ===== src/Http/Steady.antt =====
-- The handlers together: what they leave of the stores, whatever is requested.
use dee_relay.Base.{ℕ, Option, Bool, List, [], ◌∷◌, String, string_key, if_both, is_empty, ℤ, pos}
use dee_relay.Model.{Time, MessageEnvelope, AckRecord, PresenceHeartbeat}
use dee_relay.Admission.Types.{Grant}
use dee_relay.Admission.Gate.{queue_grant}
use dee_relay.Admission.Run.{admit-Steady}
use dee_relay.Queue.Auth.{Auth}
use dee_relay.Queue.Ops.Accept.{add_message_with_grant-Inv}
use dee_relay.Queue.Ops.Acked.{add_ack_with_grant-Inv}
use dee_relay.Queue.Ops.Reads.{messages_for_recipient-Inv, acks_for_sender-Inv}
use dee_relay.Presence.Run.{heartbeat_with_grant-InStep}
use dee_relay.Http.Types.{Server, Body, decoded, too_large, late, malformed, parse_limit}
use dee_relay.Http.Guards.{presence_grant, is_trusted_peer}
use dee_relay.Http.Mail.{
  lacks_tag, post_decoded, handle_post_message, with_auth, post_ack_decoded, handle_post_ack,
  get_messages_with, get_messages_admitted, handle_get_messages, get_acks_with, get_acks_admitted,
  handle_get_acks,
}
use dee_relay.Http.Boxes.{
  heartbeat_decoded, handle_presence_heartbeat, query_decoded, handle_presence_query,
  handle_mesh_snapshot,
}
use dee_relay.Http.Admitted.{with_auth-lift}
use dee_relay.Admission.Run as AdmissionRun
use dee_relay.Http.Boxed.{
  query_decoded-IsSteady, handle_presence_revoke-IsSteady, handle_profile_purge-IsSteady,
  serve_since-IsSteady,
}
use dee_relay.Http.Stocked.{
  handle_health-IsSteady, handle_publish_prekeys-IsSteady, handle_prekey_status-IsSteady,
  handle_claim_prekey-IsSteady, handle_post_attachment_chunk-IsSteady,
  handle_complete_attachment-IsSteady, handle_get_attachment_chunks-IsSteady,
}
use dee_relay.Http.Requests.{
  Request, checks_health, challenges, redeems, publishes, claims, counts_prekeys, pushes, polls,
  completes, posts_message, gets_messages, posts_ack, gets_acks, beats, asks, revokes, purges,
  pulls, handle, serve, IsDrawn, AreDrawn,
}
use dee_relay.Http.Sound.{
  IsSteady, KeepsSteady, with_store, with_presence, with_gate, when_admitted-IsSteady,
}

post_decoded-IsSteady :
    (s : Server) (now : Time) (grant : Grant) (body : Body MessageEnvelope)
    → IsSteady s
    → IsSteady (post_decoded s now grant body).0
unfolding post_decoded
post_decoded-IsSteady s now grant too_large v = v
post_decoded-IsSteady s now grant late v = v
post_decoded-IsSteady s now grant malformed v = v
post_decoded-IsSteady s now grant (decoded e) v = if_both KeepsSteady (lacks_tag s.cfg e) v (
    with_store v
      (add_message_with_grant-Inv s.store now e s.cfg.node_id (queue_grant grant) v.store))

post_ack_decoded-IsSteady :
    (s : Server) (now : Time) (grant : Grant) (auth : Auth) (body : Body AckRecord)
    → IsSteady s
    → IsSteady (post_ack_decoded s now grant auth body).0
unfolding post_ack_decoded
post_ack_decoded-IsSteady s now grant auth too_large v = v
post_ack_decoded-IsSteady s now grant auth late v = v
post_ack_decoded-IsSteady s now grant auth malformed v = v
post_ack_decoded-IsSteady s now grant auth (decoded ack) v =
    with_store v
      (add_ack_with_grant-Inv s.store now ack s.cfg.node_id (queue_grant grant) auth v.store)

module _ (digest : String → String) (decimal : ℕ → String) where
  get_messages-IsSteady :
      (s : Server) (now : Time) (secrets : List String) (recipient : String) (limit : Option ℤ)
      → IsSteady s
      → IsSteady (get_messages_admitted digest s now secrets recipient limit).0
  unfolding get_messages_admitted get_messages_with
  get_messages-IsSteady s now secrets recipient limit v =
      if_both KeepsSteady (is_empty recipient) v (
        with_auth-lift digest KeepsSteady s secrets (get_messages_with digest s now recipient limit)
          v
          (λ auth e. with_store v (
            messages_for_recipient-Inv s.store now recipient (pos (parse_limit limit 100)) auth
              v.store)))

  get_acks-IsSteady :
      (s : Server) (now : Time) (secrets : List String) (sender : String) (limit : Option ℤ)
      → IsSteady s
      → IsSteady (get_acks_admitted digest s now secrets sender limit).0
  unfolding get_acks_admitted get_acks_with
  get_acks-IsSteady s now secrets sender limit v = if_both KeepsSteady (is_empty sender) v (
      with_auth-lift digest KeepsSteady s secrets (get_acks_with digest s now sender limit) v
        (λ auth e.
          with_store v
            (acks_for_sender-Inv s.store now sender (pos (parse_limit limit 100)) auth v.store)))

  heartbeat_decoded-IsSteady :
      (s : Server) (now : Time) (grant : Grant) (secrets : List String)
      (body : Body PresenceHeartbeat)
      → IsSteady s
      → IsSteady (heartbeat_decoded digest decimal s now grant secrets body).0
  unfolding heartbeat_decoded
  heartbeat_decoded-IsSteady s now grant secrets too_large v = v
  heartbeat_decoded-IsSteady s now grant secrets late v = v
  heartbeat_decoded-IsSteady s now grant secrets malformed v = v
  heartbeat_decoded-IsSteady s now grant secrets (decoded beat) v = with_presence v (
      heartbeat_with_grant-InStep s.presence now beat (presence_grant digest decimal grant secrets)
        v.presence)

  module _ (decode : String → Option (List ℕ))
      (ed25519_verify : List ℕ → String → List ℕ → Bool) where
    handle-IsSteady :
        (s : Server) (clock : ℕ → Time) (r : Request)
        → IsDrawn digest decimal decode ed25519_verify s r
        → IsSteady s
        → IsSteady (handle digest decimal decode ed25519_verify s clock r).0
    unfolding handle handle_post_message handle_get_messages handle_post_ack handle_get_acks
        handle_presence_heartbeat handle_presence_query handle_mesh_snapshot AdmissionRun.step
    handle-IsSteady s clock checks_health drawn = handle_health-IsSteady s clock
    handle-IsSteady s clock (challenges random) drawn = λ v. with_gate v (
        AdmissionRun.step-Steady decode ed25519_verify s.gate
          (AdmissionRun.challenges (clock 0) random) tt v.sessions)
    handle-IsSteady s clock (redeems value random) drawn = λ v. with_gate v (
        AdmissionRun.handle_redeem-Steady decode ed25519_verify s.gate (clock 0) (clock 1) (clock 2)
          value random drawn v.sessions)
    handle-IsSteady s clock (publishes token secrets body) drawn =
        handle_publish_prekeys-IsSteady digest s clock token secrets body
    handle-IsSteady s clock (claims token tag device) drawn =
        handle_claim_prekey-IsSteady s clock token tag device
    handle-IsSteady s clock (counts_prekeys token secrets device) drawn =
        handle_prekey_status-IsSteady digest s clock token secrets device
    handle-IsSteady s clock (pushes token body) drawn =
        handle_post_attachment_chunk-IsSteady s clock token body
    handle-IsSteady s clock (polls fuel token rounds requested recipient capability) drawn =
        handle_get_attachment_chunks-IsSteady fuel s clock token rounds requested recipient
          capability
    handle-IsSteady s clock (completes token body) drawn =
        handle_complete_attachment-IsSteady s clock token body
    handle-IsSteady s clock (posts_message token body) drawn =
        when_admitted-IsSteady s clock token (λ t grant. post_decoded t (clock 2) grant body)
          (λ t grant. post_decoded-IsSteady t (clock 2) grant body)
    handle-IsSteady s clock (gets_messages token secrets recipient limit) drawn =
        when_admitted-IsSteady s clock token
          (λ t grant. get_messages_admitted digest t (clock 2) secrets recipient limit)
          (λ t grant. get_messages-IsSteady t (clock 2) secrets recipient limit)
    handle-IsSteady s clock (posts_ack token secrets body) drawn =
        when_admitted-IsSteady s clock token
          (λ t grant.
            with_auth digest t secrets (λ auth. post_ack_decoded t (clock 2) grant auth body))
          (λ t grant v.
            with_auth-lift digest KeepsSteady t secrets
              (λ auth. post_ack_decoded t (clock 2) grant auth body) v
              (λ auth e. post_ack_decoded-IsSteady t (clock 2) grant auth body v))
    handle-IsSteady s clock (gets_acks token secrets sender limit) drawn =
        when_admitted-IsSteady s clock token
          (λ t grant. get_acks_admitted digest t (clock 2) secrets sender limit)
          (λ t grant. get_acks-IsSteady t (clock 2) secrets sender limit)
    handle-IsSteady s clock (beats token secrets body) drawn =
        when_admitted-IsSteady s clock token
          (λ t grant. heartbeat_decoded digest decimal t (clock 2) grant secrets body)
          (λ t grant. heartbeat_decoded-IsSteady t (clock 2) grant secrets body)
    handle-IsSteady s clock (asks token body) drawn =
        when_admitted-IsSteady s clock token (λ t grant. query_decoded t (clock 2) body)
          (λ t grant. query_decoded-IsSteady t (clock 2) body)
    handle-IsSteady s clock (revokes body) drawn = handle_presence_revoke-IsSteady s (clock 0) body
    handle-IsSteady s clock (purges body) drawn =
        handle_profile_purge-IsSteady s (clock 0) (clock 1) body
    handle-IsSteady s clock (pulls presented since limit) drawn = λ v.
        if_both KeepsSteady (is_trusted_peer s.cfg presented)
          (serve_since-IsSteady s clock since limit v) v

    -- Any history of requests to the routes of admission, messages, acks, presence, purges, prekeys and
    -- attachments, to /health and to the snapshot of the pool, with any bodies, sessions, secrets and
    -- cursors, admitted or not, in which no token drawn for a redemption is one still in use, keeps the
    -- queue store with its indexes, counters and quotas in step, the presence table in step and within
    -- its cap, the session tables in lock-step, each pool of prekeys within its cap and without an id
    -- twice, and the attachment relay within its caps. These are all the routes but /nodes, which looks
    -- at none of these stores.
    pub serve-IsSteady :
        (s : Server) (rs : List ((ℕ → Time) × Request))
        → AreDrawn digest decimal decode ed25519_verify s rs
        → IsSteady s
        → IsSteady (serve digest decimal decode ed25519_verify s rs)
    unfolding serve
    serve-IsSteady s [] drawn v = v
    serve-IsSteady s ((clock, r) ∷ rs) drawn v =
        serve-IsSteady (handle digest decimal decode ed25519_verify s clock r).0 rs drawn.1
          (handle-IsSteady s clock r drawn.0 v)
