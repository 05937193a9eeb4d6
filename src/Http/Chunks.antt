-- ===== src/Http/Chunks.antt =====
-- internal/httpapi/server.go: the handlers of attachments. The long poll counts its rounds; the readings of
-- the clock in each, and whether the client is gone by its end, are given.
use dee_relay.Base.{
  ℕ, zero, suc, ◌+◌, ◌-◌, ◌*◌, ◌%◌, ◌^◌, Bool, true, false, ◌||◌, Option, none, some, [], ◌∷◌,
  String, if◌then◌else◌, is_empty, leb, ltb, ℤ, pos, negsuc,
}
use dee_relay.Model.{Time}
use dee_relay.Admission.Types.{Grant}
use dee_relay.Admission.Gate.{attachment_grant, admit, admitted, turned_away}
use dee_relay.Attachment.Types.{
  Chunk, Outcome, accepted, refused, panicked, duplicate, window_full, too_many_sessions, too_large,
  too_many_chunks, transit_exhausted,
}
use dee_relay.Attachment.Push.{push_with_grant}
use dee_relay.Attachment.Ends.{drain, complete}
use dee_relay.Http.Types.{
  Config, Server, Body, decoded, Reply, refusal, posted, chunks, gone, aborted, removed,
  decode_error,
}
use dee_relay.Http.Guards.{when_admitted}

unfoldable pub push_reply : Outcome → Reply
push_reply accepted = posted 202 false none
push_reply (refused duplicate) = posted 200 true none
push_reply (refused window_full) = refusal 429 "window_full"
push_reply (refused too_many_sessions) = refusal 429 "relay_busy"
push_reply (refused too_large) = refusal 413 "attachment_too_large"
push_reply (refused too_many_chunks) = refusal 413 "chunk_count_too_high"
push_reply (refused transit_exhausted) = refusal 429 "transit_exhausted"
push_reply (refused _) = refusal 400 "invalid_attachment_chunk"
push_reply panicked = aborted

unfoldable pub push_decoded : Server → Time → Grant → Body Chunk → Server × Reply
unfolding push_reply
push_decoded s now grant (decoded chunk) =
    let (relay, outcome) = push_with_grant s.attachments now chunk (attachment_grant grant) in
    (record s { attachments = relay }, push_reply outcome)
push_decoded s now grant body = (s, decode_error body "invalid_json")

unfoldable pub handle_post_attachment_chunk :
    Server → (ℕ → Time) → String → Body Chunk → Server × Reply
unfolding when_admitted push_decoded
handle_post_attachment_chunk s clock token body =
    when_admitted s clock token (λ t grant. push_decoded t (clock 2) grant body)

-- The transfer and the capability.
unfoldable pub complete_decoded : Server → Body (String × String) → Server × Reply
complete_decoded s (decoded (transfer_id, capability)) =
    if is_empty transfer_id || is_empty capability
    then (s, refusal 400 "invalid_attachment_completion")
    else let (relay, count) = complete s.attachments transfer_id capability in
      (record s { attachments = relay }, removed count)
complete_decoded s body = (s, decode_error body "invalid_attachment_completion")

unfoldable pub handle_complete_attachment :
    Server → (ℕ → Time) → String → Body (String × String) → Server × Reply
unfolding when_admitted complete_decoded
handle_complete_attachment s clock token body =
    when_admitted s clock token (λ t grant. complete_decoded t body)

-- `time.Duration(secs) * time.Second`, in 64 bits.
unfoldable pub nanoseconds : ℕ → ℤ
nanoseconds secs =
    let wrapped = secs * 1_000_000_000 % 2 ^ 64 in
    if ltb wrapped (2 ^ 63) then pos wrapped else negsuc (2 ^ 64 - wrapped - 1)

unfoldable pub lower_wait : ℕ → ℤ → ℤ
lower_wait timeout (pos n) = if ltb timeout n then pos timeout else pos n
lower_wait timeout (negsuc n) = negsuc n

-- The wait that the query asks for, as Atoi reads it, within the configured one.
unfoldable pub poll_wait : Config → Option ℤ → ℤ
unfolding nanoseconds lower_wait
poll_wait cfg (some (pos secs)) = lower_wait cfg.relay_poll_timeout (nanoseconds secs)
poll_wait cfg _ = pos cfg.relay_poll_timeout

-- Whether an instant is not before the deadline.
unfoldable pub is_due : Time → ℤ → Time → Bool
is_due started (pos wait) now = leb (started + wait) now
is_due started (negsuc n) now = leb started (now + (n + 1))

-- One round of the poll: Drain reads the clock twice, the loop reads it once more, and a round that goes on
-- waits for a tick or for the client's end.
pub record Round : Type 0 where
  pub swept : Time
  pub handed : Time
  pub checked : Time
  pub hung_up : Bool

module _ (rounds : ℕ → Round) (started : Time) (wait : ℤ) (recipient capability : String) where
  -- Nothing, where the rounds counted do not suffice.
  unfoldable pub poll : ℕ → ℕ → Server → Server × Option Reply
  unfolding is_due
  poll zero k s = (s, none)
  poll (suc n) k s =
      let r = rounds k in
      let (relay, found) = drain s.attachments r.swept r.handed recipient capability in
      let t : Server = record s { attachments = relay } in
      let later = poll n (suc k) t in
      elim found [
        | c ∷ cs ↦ (t, some (chunks (c ∷ cs)))
        | [] ↦
            if is_due started wait r.checked
            then (t, some (chunks []))
            else if r.hung_up
            then (t, some gone)
            else later
      ]

unfoldable pub poll_admitted :
    ℕ → Server → (ℕ → Round) → Time → Option ℤ → String → String → Server × Option Reply
unfolding poll_wait poll
poll_admitted fuel s rounds started requested recipient capability =
    if is_empty recipient || is_empty capability
    then (s, some (refusal 400 "missing_attachment_route"))
    else poll rounds started (poll_wait s.cfg requested) recipient capability fuel 0 s

-- The handler, with the rounds that it is counted to take at most.
unfoldable pub handle_get_attachment_chunks :
    ℕ
    → Server
    → (ℕ → Time)
    → String
    → (ℕ → Round)
    → Option ℤ
    → String
    → String
    → Server × Option Reply
unfolding poll_admitted
handle_get_attachment_chunks fuel s clock token rounds requested recipient capability =
    let (g, verdict) = admit s.gate (clock 0) (clock 1) token in
    elim verdict [
      | admitted grant ↦
          poll_admitted fuel (record s { gate = g }) rounds (clock 2) requested recipient capability
      | turned_away status code ↦ (record s { gate = g }, some (refusal status code))
    ]
