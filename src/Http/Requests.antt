-- ===== src/Http/Requests.antt =====
-- internal/httpapi/server.go: the routes that change or read a store, and a history of requests.
use dee_relay.Base.{ℕ, Bool, Option, none, some, List, [], ◌∷◌, String, string_key, ℤ}
use dee_relay.Model.{Time, MessageEnvelope, AckRecord, PresenceHeartbeat, PrekeyPublish}
use dee_relay.Admission.Gate.{Redemption, handle_challenge, handle_redeem}
use dee_relay.Admission.Gate as AdmissionGate
use dee_relay.Admission.Upkeep.{IsFresh}
use dee_relay.Attachment.Types.{Chunk}
use dee_relay.Http.Types.{Server, Body, Reply}
use dee_relay.Http.Health.{HealthReport, handle_health}
use dee_relay.Http.Mail.{handle_post_message, handle_post_ack, handle_get_messages, handle_get_acks}
use dee_relay.Http.Boxes.{
  handle_presence_heartbeat, handle_presence_query, handle_presence_revoke, handle_profile_purge,
  Since, handle_mesh_snapshot, handle_publish_prekeys, handle_claim_prekey, handle_prekey_status,
}
use dee_relay.Http.Chunks.{
  Round, handle_post_attachment_chunk, handle_get_attachment_chunks, handle_complete_attachment,
}

-- What a client or a pool member asks. A challenge and a redemption come with the random text that is drawn
-- for them, and a poll with the rounds that it is counted to take at most.
pub data Request : Type 0 where
  checks_health : Request
  challenges : Option String → Request
  redeems : Option Redemption → Option String → Request
  posts_message : String → Body MessageEnvelope → Request
  gets_messages : String → List String → String → Option ℤ → Request
  posts_ack : String → List String → Body AckRecord → Request
  gets_acks : String → List String → String → Option ℤ → Request
  beats : String → List String → Body PresenceHeartbeat → Request
  asks : String → Body (List String) → Request
  revokes : Body String → Request
  purges : Body String → Request
  publishes : String → List String → Body PrekeyPublish → Request
  claims : String → String → String → Request
  counts_prekeys : String → List String → String → Request
  pushes : String → Body Chunk → Request
  polls : ℕ → String → (ℕ → Round) → Option ℤ → String → String → Request
  completes : String → Body (String × String) → Request
  pulls : String → Since → Option ℤ → Request

-- What is written: by the gate's two routes, by /health, by the others, and nothing where a poll's rounds run out.
pub data Answer : Type 0 where
  gated : AdmissionGate.Reply → Answer
  replied : Reply → Answer
  reported : HealthReport → Answer
  unanswered : Answer

abbrev answer_of : Option Reply → Answer
answer_of none = unanswered
answer_of (some reply) = replied reply

abbrev by_reply : Server × Reply → Server × Answer
by_reply x = (x.0, replied x.1)

module _ (digest : String → String) (decimal : ℕ → String) (decode : String → Option (List ℕ))
    (ed25519_verify : List ℕ → String → List ℕ → Bool) where
  unfoldable pub handle : Server → (ℕ → Time) → Request → Server × Answer
  unfolding handle_post_message handle_get_messages handle_post_ack handle_get_acks
      handle_presence_heartbeat handle_presence_query handle_presence_revoke handle_profile_purge
      handle_mesh_snapshot handle_challenge handle_redeem handle_publish_prekeys handle_claim_prekey
      handle_prekey_status handle_post_attachment_chunk handle_get_attachment_chunks
      handle_complete_attachment handle_health
  handle s clock checks_health = let (t, report) = handle_health s clock in (t, reported report)
  handle s clock (challenges random) =
      let (g, reply) = handle_challenge s.gate (clock 0) random in
      (record s { gate = g }, gated reply)
  handle s clock (redeems value random) =
      let (g, reply) =
        handle_redeem decode ed25519_verify s.gate (clock 0) (clock 1) (clock 2) value random in
      (record s { gate = g }, gated reply)
  handle s clock (posts_message token body) = by_reply (handle_post_message s clock token body)
  handle s clock (gets_messages token secrets recipient limit) =
      by_reply (handle_get_messages digest s clock token secrets recipient limit)
  handle s clock (posts_ack token secrets body) =
      by_reply (handle_post_ack digest s clock token secrets body)
  handle s clock (gets_acks token secrets sender limit) =
      by_reply (handle_get_acks digest s clock token secrets sender limit)
  handle s clock (beats token secrets body) =
      by_reply (handle_presence_heartbeat digest decimal s clock token secrets body)
  handle s clock (asks token body) = by_reply (handle_presence_query s clock token body)
  handle s clock (revokes body) = by_reply (handle_presence_revoke s (clock 0) body)
  handle s clock (purges body) = by_reply (handle_profile_purge s (clock 0) (clock 1) body)
  handle s clock (publishes token secrets body) =
      by_reply (handle_publish_prekeys digest s clock token secrets body)
  handle s clock (claims token tag device) = by_reply (handle_claim_prekey s clock token tag device)
  handle s clock (counts_prekeys token secrets device) =
      by_reply (handle_prekey_status digest s clock token secrets device)
  handle s clock (pushes token body) = by_reply (handle_post_attachment_chunk s clock token body)
  handle s clock (polls fuel token rounds requested recipient capability) =
      let (t, reply) =
        handle_get_attachment_chunks fuel s clock token rounds requested recipient capability in
      (t, answer_of reply)
  handle s clock (completes token body) = by_reply (handle_complete_attachment s clock token body)
  handle s clock (pulls presented since limit) =
      by_reply (handle_mesh_snapshot s clock presented since limit)

  unfoldable pub serve : Server → List ((ℕ → Time) × Request) → Server
  unfolding handle
  serve s [] = s
  serve s ((clock, r) ∷ rs) = serve (handle s clock r).0 rs

  -- The token drawn for a redemption is not in use.
  abbrev pub IsDrawn : Server → Request → Type 0
  IsDrawn s (redeems value random) = IsFresh s.gate.sessions random
  IsDrawn s r = Unit

  abbrev pub AreDrawn : Server → List ((ℕ → Time) × Request) → Type 0
  AreDrawn s [] = Unit
  AreDrawn s ((clock, r) ∷ rs) = IsDrawn s r × AreDrawn (handle s clock r).0 rs
