-- ===== src/Http/Stocked.antt =====
-- The handlers of prekeys, attachments and /health keep the server sound.
use dee_relay.Base.{
  ℕ, zero, suc, false, ◌||◌, Option, none, List, String, string_key, if_both, is_empty, ℤ,
  Option-cases, inl, inr,
}
use dee_relay.Model.{Time, PrekeyPublish}
use dee_relay.Admission.Types.{Grant}
use dee_relay.Admission.Gate.{attachment_grant, admit}
use dee_relay.Admission.Run as AdmissionRun
use dee_relay.Prekey.Run.{
  step-IsStocked, publishes, claims, asks, counts_buckets, counts_entries, counts_last_resorts,
  step,
}
use dee_relay.Prekey.Publish.{publish}
use dee_relay.Prekey.Claim.{claim, status}
use dee_relay.Attachment.Types.{Chunk}
use dee_relay.Attachment.Ends.{drain}
use dee_relay.Attachment.Pushes.{push_with_grant-IsRelay}
use dee_relay.Attachment.Run as AttachmentRun
use dee_relay.Http.Types.{Server, Body, decoded, too_large, late, malformed, Reply}
use dee_relay.Http.Guards.{queue_subject}
use dee_relay.Http.Boxes.{
  is_empty_publish, publish_as, with_subject, handle_publish_prekeys, status_as,
  handle_prekey_status, claim_admitted, handle_claim_prekey,
}
use dee_relay.Http.Chunks.{
  push_decoded, handle_post_attachment_chunk, complete_decoded, handle_complete_attachment, Round,
  poll, is_due, poll_wait, poll_admitted, handle_get_attachment_chunks,
}
use dee_relay.Http.Health.{handle_health}
use dee_relay.Presence.Invariant.{prune_locked-InStep}
use dee_relay.Presence.Lists.{count_records}
use dee_relay.Http.Admitted.{Verdict-cases}
use dee_relay.Http.Polled.{List-cases}
use dee_relay.Http.Sound.{
  IsSteady, KeepsSteady, with_gate, with_prekeys, with_attachments, when_admitted-IsSteady,
}

publish_as-IsSteady :
    (digest : String → String) (s : Server) (now later : Time) (owner : String)
    (body : Body PrekeyPublish)
    → IsSteady s
    → IsSteady (publish_as digest s now later owner body).0
unfolding publish_as step
publish_as-IsSteady digest s now later owner too_large v = v
publish_as-IsSteady digest s now later owner late v = v
publish_as-IsSteady digest s now later owner malformed v = v
publish_as-IsSteady digest s now later owner (decoded value) v =
    let filled = step-IsStocked s.prekeys (now, publishes owner value) v.prekeys in
    if_both KeepsSteady (is_empty_publish value) v (
      if_both KeepsSteady (publish s.prekeys now owner value).2
        (with_prekeys v (
          step-IsStocked (publish s.prekeys now owner value).0 (later, asks owner value.device_key)
            filled))
        (with_prekeys v filled))

with_subject-IsSteady :
    (digest : String → String) (s : Server) (secrets : List String) (rest : String → Server × Reply)
    → ((owner : String) → IsSteady (rest owner).0)
    → IsSteady s
    → IsSteady (with_subject digest s secrets rest).0
unfolding with_subject
with_subject-IsSteady digest s secrets rest h v =
    elim (Option-cases (queue_subject digest secrets)) [
      | inl e ↦ rw (with_subject, e) v
      | inr (owner, e) ↦ rw (with_subject, e) (h owner)
    ]

pub handle_publish_prekeys-IsSteady :
    (digest : String → String) (s : Server) (clock : ℕ → Time) (token : String)
    (secrets : List String) (body : Body PrekeyPublish)
    → IsSteady s
    → IsSteady (handle_publish_prekeys digest s clock token secrets body).0
unfolding handle_publish_prekeys
handle_publish_prekeys-IsSteady digest s clock token secrets body =
    when_admitted-IsSteady s clock token
      (λ t grant.
        with_subject digest t secrets (λ owner. publish_as digest t (clock 2) (clock 3) owner body))
      (λ t grant v.
        with_subject-IsSteady digest t secrets
          (λ owner. publish_as digest t (clock 2) (clock 3) owner body)
          (λ owner. publish_as-IsSteady digest t (clock 2) (clock 3) owner body v) v)

pub handle_prekey_status-IsSteady :
    (digest : String → String) (s : Server) (clock : ℕ → Time) (token : String)
    (secrets : List String) (device : String)
    → IsSteady s
    → IsSteady (handle_prekey_status digest s clock token secrets device).0
unfolding handle_prekey_status status_as step
handle_prekey_status-IsSteady digest s clock token secrets device =
    when_admitted-IsSteady s clock token
      (λ t grant. with_subject digest t secrets (status_as digest t (clock 2) device))
      (λ t grant v.
        with_subject-IsSteady digest t secrets (status_as digest t (clock 2) device)
          (λ owner.
            with_prekeys v (step-IsStocked t.prekeys (clock 2, asks owner device) v.prekeys))
          v)

claim_admitted-IsSteady :
    (s : Server) (now : Time) (tag device : String)
    → IsSteady s
    → IsSteady (claim_admitted s now tag device).0
unfolding claim_admitted step
claim_admitted-IsSteady s now tag device v =
    let taken = with_prekeys v (step-IsStocked s.prekeys (now, claims tag device) v.prekeys) in
    if_both KeepsSteady (is_empty tag) v (elim (Option-cases (claim s.prekeys now tag device).1) [
      | inl e ↦ rw e taken
      | inr (entry, e) ↦ rw e taken
    ])

pub handle_claim_prekey-IsSteady :
    (s : Server) (clock : ℕ → Time) (token tag device : String)
    → IsSteady s
    → IsSteady (handle_claim_prekey s clock token tag device).0
unfolding handle_claim_prekey
handle_claim_prekey-IsSteady s clock token tag device =
    when_admitted-IsSteady s clock token (λ t grant. claim_admitted t (clock 2) tag device)
      (λ t grant v. claim_admitted-IsSteady t (clock 2) tag device v)

push_decoded-IsSteady :
    (s : Server) (now : Time) (grant : Grant) (body : Body Chunk)
    → IsSteady s
    → IsSteady (push_decoded s now grant body).0
unfolding push_decoded
push_decoded-IsSteady s now grant too_large v = v
push_decoded-IsSteady s now grant late v = v
push_decoded-IsSteady s now grant malformed v = v
push_decoded-IsSteady s now grant (decoded chunk) v =
    with_attachments v
      (push_with_grant-IsRelay s.attachments now chunk (attachment_grant grant) v.attachments).0

pub handle_post_attachment_chunk-IsSteady :
    (s : Server) (clock : ℕ → Time) (token : String) (body : Body Chunk)
    → IsSteady s
    → IsSteady (handle_post_attachment_chunk s clock token body).0
unfolding handle_post_attachment_chunk
handle_post_attachment_chunk-IsSteady s clock token body =
    when_admitted-IsSteady s clock token (λ t grant. push_decoded t (clock 2) grant body)
      (λ t grant v. push_decoded-IsSteady t (clock 2) grant body v)

complete_decoded-IsSteady :
    (s : Server) (body : Body (String × String)) → IsSteady s → IsSteady (complete_decoded s body).0
unfolding complete_decoded AttachmentRun.step
complete_decoded-IsSteady s too_large v = v
complete_decoded-IsSteady s late v = v
complete_decoded-IsSteady s malformed v = v
complete_decoded-IsSteady s (decoded (transfer_id, capability)) v =
    if_both KeepsSteady (is_empty transfer_id || is_empty capability) v (
      with_attachments v (
        AttachmentRun.step-IsRelay s.attachments (0, AttachmentRun.completes transfer_id capability)
          v.attachments))

pub handle_complete_attachment-IsSteady :
    (s : Server) (clock : ℕ → Time) (token : String) (body : Body (String × String))
    → IsSteady s
    → IsSteady (handle_complete_attachment s clock token body).0
unfolding handle_complete_attachment
handle_complete_attachment-IsSteady s clock token body =
    when_admitted-IsSteady s clock token (λ t grant. complete_decoded t body)
      (λ t grant v. complete_decoded-IsSteady t body v)

abbrev KeepsPolled : Server × Option Reply → Type 0
KeepsPolled x = IsSteady x.0

poll-IsSteady :
    (rounds : ℕ → Round) (started : Time) (wait : ℤ) (recipient capability : String) (n k : ℕ)
    (s : Server)
    → IsSteady s
    → IsSteady (poll rounds started wait recipient capability n k s).0
unfolding poll AttachmentRun.step
poll-IsSteady rounds started wait recipient capability zero k s v = v
poll-IsSteady rounds started wait recipient capability (suc n) k s v =
    let r = rounds k in
    let x = drain s.attachments r.swept r.handed recipient capability in
    let kept : IsSteady (record s { attachments = x.0 }) = with_attachments v (
      AttachmentRun.step-IsRelay s.attachments
        (r.swept, AttachmentRun.drains r.handed recipient capability) v.attachments) in
    elim (List-cases x.1) [
      | inr (c, cs, e) ↦ rw (poll, e) kept
      | inl e ↦
          rw (poll, e)
            (if_both KeepsPolled (is_due started wait r.checked) kept (
              if_both KeepsPolled r.hung_up kept (
                poll-IsSteady rounds started wait recipient capability n (suc k)
                  (record s { attachments = x.0 }) kept)))
    ]

poll_admitted-IsSteady :
    (fuel : ℕ) (s : Server) (rounds : ℕ → Round) (started : Time) (requested : Option ℤ)
    (recipient capability : String)
    → IsSteady s
    → IsSteady (poll_admitted fuel s rounds started requested recipient capability).0
unfolding poll_admitted
poll_admitted-IsSteady fuel s rounds started requested recipient capability v =
    if_both KeepsPolled (is_empty recipient || is_empty capability) v
      (poll-IsSteady rounds started (poll_wait s.cfg requested) recipient capability fuel 0 s v)

pub handle_get_attachment_chunks-IsSteady :
    (fuel : ℕ) (s : Server) (clock : ℕ → Time) (token : String) (rounds : ℕ → Round)
    (requested : Option ℤ) (recipient capability : String)
    → IsSteady s
    → IsSteady
        (handle_get_attachment_chunks fuel s clock token rounds requested recipient capability).0
unfolding handle_get_attachment_chunks
handle_get_attachment_chunks-IsSteady fuel s clock token rounds requested recipient capability v =
    let kept = with_gate v (
      AdmissionRun.admit-Steady (λ text. none) (λ key text mark. false) s.gate (clock 0) (clock 1)
        token v.sessions) in
    elim (Verdict-cases (admit s.gate (clock 0) (clock 1) token).1) [
      | inl (grant, e) ↦
          rw (handle_get_attachment_chunks, e)
            (poll_admitted-IsSteady fuel _ rounds (clock 2) requested recipient capability kept)
      | inr (status, code, e) ↦ rw (handle_get_attachment_chunks, e) kept
    ]

pub handle_health-IsSteady :
    (s : Server) (clock : ℕ → Time) → IsSteady s → IsSteady (handle_health s clock).0
unfolding handle_health count_records AttachmentRun.step step
handle_health-IsSteady s clock v = record {
  store = v.store;
  presence = prune_locked-InStep (clock 1) v.presence;
  sessions = v.sessions;
  prekeys =
      step-IsStocked _ (clock 5, counts_buckets)
        (step-IsStocked _ (clock 4, counts_last_resorts)
          (step-IsStocked s.prekeys (clock 3, counts_entries) v.prekeys));
  attachments =
      AttachmentRun.step-IsRelay s.attachments (clock 2, AttachmentRun.prunes) v.attachments;
}
