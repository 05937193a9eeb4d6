-- ===== src/Http/Posting.antt =====
-- POST /messages and POST /acks: what each reply tells of the queue.
use dee_relay.Base.{
  ℕ, ◌≤◌, arith, ◌≡◌, ◌≢◌, inl, inr, refl, true, false, not, Option, none, some, List, String,
  string_key, Bool-cases, trim_space, sym, ◌∙◌, ap,
}
use dee_relay.Map.{lookup}
use dee_relay.Model.{Time, MessageEnvelope, AckRecord}
use dee_relay.Admission.Types.{Grant}
use dee_relay.Admission.Gate.{Gate, admit, admitted, queue_grant}
use dee_relay.Queue.Types.{
  Error, duplicate, expired, payload_too_large, pair_quota_full, slots_full, queue_full, not_owned,
  invalid,
}
use dee_relay.Queue.Auth.{Auth, permits}
use dee_relay.Queue.Auth.Proofs.{Presented, new_auth-Presented}
use dee_relay.Queue.Store.{Store, TagBinding}
use dee_relay.Queue.Post.{add_message_with_grant}
use dee_relay.Queue.Acks.{add_ack_with_grant}
use dee_relay.Queue.Ops.Posted.{Posted, PostOutcome, kept, add_message_with_grant-PostOutcome}
use dee_relay.Queue.Ops.Acked.{IsRefusal, unproved_ack}
use dee_relay.Http.Types.{
  Server, Body, decoded, too_large, late, malformed, Reply, refusal, posted, decode_error,
}
use dee_relay.Http.Guards.{queue_auth}
use dee_relay.Http.Mail.{
  post_reply, lacks_tag, post_decoded, handle_post_message, ack_reply, with_auth, post_ack_decoded,
  handle_post_ack,
}
use dee_relay.Http.Admitted.{when_admitted-lift, with_auth-lift, queue_auth-new_auth}

-- The grant that the gate gives for a session token.
abbrev pub Admits : Server → (ℕ → Time) → String → Grant → Type 0
Admits s clock token grant = (admit s.gate (clock 0) (clock 1) token).1 ≡ admitted grant

module _ (s : Server) (clock : ℕ → Time) (token : String) (body : Body MessageEnvelope) where
  -- An accepted envelope, and the grant that it was accepted under.
  pub record IsAccepted (t : Store) (ack : AckRecord) : Type 0 where
    pub grant : Grant
    pub let_in : Admits s clock token grant
    pub envelope : MessageEnvelope
    pub read : body ≡ decoded envelope
    pub tagged : lacks_tag s.cfg envelope ≡ false
    pub stored :
        Posted s.store
          (clock 2)
          s.cfg.node_id
          (queue_grant grant)
          (kept s.store (clock 2) (queue_grant grant) envelope)
          t
          ack

  abbrev pub PostReply : Server × Reply → Type 0
  PostReply (t, posted status false (some ack)) = (status ≡ 202) × IsAccepted t.store ack
  PostReply (t, posted status true (some ack)) = (status ≡ 200) × (t.store ≡ s.store)
  PostReply (t, refusal status code) = t.store ≡ s.store
  PostReply (t, _) = ⊥

  refused_reply :
      (t : Server) (ack : AckRecord) (x : Error)
      → t.store ≡ s.store
      → PostReply (t, post_reply ack (some x))
  unfolding post_reply
  refused_reply t ack duplicate h = (refl, h)
  refused_reply t ack expired h = h
  refused_reply t ack queue_full h = h
  refused_reply t ack pair_quota_full h = h
  refused_reply t ack slots_full h = h
  refused_reply t ack payload_too_large h = h
  refused_reply t ack invalid h = h
  refused_reply t ack not_owned h = h

  outcome_reply :
      (g : Gate) (grant : Grant) (envelope : MessageEnvelope) (r : Store × AckRecord × Option Error)
      → Admits s clock token grant
      → body ≡ decoded envelope
      → lacks_tag s.cfg envelope ≡ false
      → PostOutcome s.store
          (clock 2)
          s.cfg.node_id
          (queue_grant grant)
          (kept s.store (clock 2) (queue_grant grant) envelope)
          r
      → PostReply (record s { gate = g; store = r.0 }, post_reply r.1 r.2)
  unfolding post_reply
  outcome_reply g grant envelope (t, ack, none) let_in read tagged (inr (e, stored)) = (
    refl,
    record {
      grant = grant;
      let_in = let_in;
      envelope = envelope;
      read = read;
      tagged = tagged;
      stored = stored;
    },
  )
  outcome_reply g grant envelope (t, ack, none) let_in read tagged (inl (x, e, same)) = absurd (cc)
  outcome_reply g grant envelope (t, ack, some x) let_in read tagged (inl (y, e, same)) =
      refused_reply (record s { gate = g; store = t }) ack x same
  outcome_reply g grant envelope (t, ack, some x) let_in read tagged (inr (e, stored)) = absurd (cc)

  decoded_reply :
      (g : Gate) (grant : Grant) (b : Body MessageEnvelope)
      → Admits s clock token grant
      → body ≡ b
      → PostReply (post_decoded (record s { gate = g }) (clock 2) grant b)
  unfolding post_decoded decode_error
  decoded_reply g grant too_large let_in read = refl
  decoded_reply g grant late let_in read = refl
  decoded_reply g grant malformed let_in read = refl
  decoded_reply g grant (decoded envelope) let_in read =
      elim (Bool-cases (lacks_tag s.cfg envelope)) [
        | inl bare ↦ rw (post_decoded, bare) refl
        | inr tagged ↦
            rw (post_decoded, tagged)
              (outcome_reply g grant envelope
                (add_message_with_grant s.store (clock 2) envelope s.cfg.node_id
                  (queue_grant grant))
                let_in read tagged
                (add_message_with_grant-PostOutcome s.store (clock 2) envelope s.cfg.node_id
                  (queue_grant grant)))
      ]

  -- A POST to /messages is answered 202 only for an admitted request whose body is an envelope with the tags that
  -- the node insists on; the envelope, with the lifetime that the credential bought, is then in the
  -- queue beside the ack in the answer, and no other record moved. A duplicate is answered 200. With a
  -- duplicate and with every refusal, of the gate, of the decoder and of the queue, the queue is as it
  -- was. No other reply is written.
  pub handle_post_message-PostReply : PostReply (handle_post_message s clock token body)
  unfolding handle_post_message
  handle_post_message-PostReply =
      when_admitted-lift PostReply s clock token (λ t grant. post_decoded t (clock 2) grant body)
        (λ grant e. decoded_reply (admit s.gate (clock 0) (clock 1) token).0 grant body e refl)
        (λ status code fault. refl)

-- Refused with a status of the client's fault, and nothing of the queue moved.
abbrev pub IsTurnedDown : Server → Server × Reply → Type 0
IsTurnedDown s (t, refusal status code) = (400 ≤ status) × (t.store ≡ s.store)
IsTurnedDown s (t, _) = ⊥

module _ (digest : String → String) (s : Server) (ack : AckRecord) (b : TagBinding)
    (bound : lookup (trim_space ack.message_id) s.store.message_tags ≡ some b) where
  ack_reply-IsTurnedDown :
      (g : Gate) (r : Store × Option Error)
      → IsRefusal s.store r
      → IsTurnedDown s (record s { gate = g; store = r.0 }, ack_reply r.1)
  unfolding ack_reply
  ack_reply-IsTurnedDown g (t, none) h = absurd h
  ack_reply-IsTurnedDown g (t, some duplicate) h = absurd h
  ack_reply-IsTurnedDown g (t, some expired) h = (omega arith, h)
  ack_reply-IsTurnedDown g (t, some queue_full) h = (omega arith, h)
  ack_reply-IsTurnedDown g (t, some pair_quota_full) h = (omega arith, h)
  ack_reply-IsTurnedDown g (t, some slots_full) h = (omega arith, h)
  ack_reply-IsTurnedDown g (t, some payload_too_large) h = (omega arith, h)
  ack_reply-IsTurnedDown g (t, some invalid) h = (omega arith, h)
  ack_reply-IsTurnedDown g (t, some not_owned) h = (omega arith, h)

  not_permitted :
      (secrets : List String) (auth : Auth)
      → b.tag ≢ ""
      → ¬ Presented digest b.tag secrets
      → queue_auth digest s.cfg secrets ≡ some auth
      → permits auth b.tag ≡ false
  not_permitted secrets auth full missing e = elim (Bool-cases (permits auth b.tag)) [
    | inr refused ↦ refused
    | inl allowed ↦ absurd (
        missing (
          (new_auth-Presented digest secrets (not s.cfg.require_fetch_auth) b.tag full).0 (
            ap (λ a. permits a b.tag) (sym (queue_auth-new_auth digest s.cfg secrets auth e))
            ∙ allowed)))
  ]

  -- A POST to /acks brings in no ack for a message that the node holds a tag for, from a caller none of whose
  -- secrets hashes to that tag: it answers a refusal, with a status of 400 or more, and the queue store is as it was,
  -- whoever the caller's credential admits and whether or not the node enforces fetch authorization.
  pub handle_post_ack-IsTurnedDown :
      (clock : ℕ → Time) (token : String) (secrets : List String)
      → b.tag ≢ ""
      → ¬ Presented digest b.tag secrets
      → IsTurnedDown s (handle_post_ack digest s clock token secrets (decoded ack))
  unfolding handle_post_ack post_ack_decoded
  handle_post_ack-IsTurnedDown clock token secrets full missing =
      when_admitted-lift (IsTurnedDown s) s clock token
        (λ t grant.
          with_auth digest t secrets
            (λ auth. post_ack_decoded t (clock 2) grant auth (decoded ack)))
        (λ grant e.
          let g = (admit s.gate (clock 0) (clock 1) token).0 in
          with_auth-lift digest (IsTurnedDown s) (record s { gate = g }) secrets
            (λ auth. post_ack_decoded (record s { gate = g }) (clock 2) grant auth (decoded ack))
            (omega arith, refl)
            (λ auth e.
              ack_reply-IsTurnedDown g
                (add_ack_with_grant s.store (clock 2) ack s.cfg.node_id (queue_grant grant) auth)
                (unproved_ack s.store (clock 2) ack s.cfg.node_id (queue_grant grant) auth b bound
                  (not_permitted secrets auth full missing e))))
        (λ status code fault. (fault, refl))
