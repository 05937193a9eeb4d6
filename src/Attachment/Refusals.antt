-- ===== src/Attachment/Refusals.antt =====
-- What a refused push leaves behind.
use dee_relay.Base.{
  ◌≡◌, refl, inl, inr, Option, none, some, String, string_key, arith, length, if_both, Option-cases,
  leb, ltb, natural, string_discrete,
}
use Prim.Native.String.{len}
use dee_relay.Map.{lookup, insert, lookup-insert}
use dee_relay.Model.{Time}
use dee_relay.Attachment.Types.{
  Error, Outcome, accepted, refused, panicked, Grant, Chunk, Session, Relay, sweep_locked,
  max_chunks_per_transfer,
}
use dee_relay.Attachment.Push.{
  trim_chunk, is_malformed, is_over_share, session_of, verdict, settle, push_into, push_open,
  push_with_grant,
}

-- What stands under a key: what stood there, what the sweep left, or a session without a chunk that
-- the push opened.
pub data Leaves (r : Relay) (now : Time) (chunk : Chunk) (grant : Grant) (key : String)
    (o : Option Session) : Type 0 where
  as_before : o ≡ lookup key r.sessions → Leaves r now chunk grant key o
  as_swept : o ≡ lookup key (sweep_locked now r).sessions → Leaves r now chunk grant key o
  as_opened :
      key ≡ chunk.capability
      → lookup key (sweep_locked now r).sessions ≡ none
      → o ≡ some (session_of now chunk grant)
      → Leaves r now chunk grant key o

module _ (r : Relay) (now : Time) (chunk : Chunk) (grant : Grant) (e : Error) (key : String) where
  abbrev Left : Relay × Outcome → Type 0
  Left (t, o) =
      o ≡ refused e → (t.transit ≡ r.transit) × Leaves r now chunk grant key (lookup key t.sessions)

  settle-Left :
      (t : Relay) (sess : Session) (o : Outcome)
      → t.transit ≡ r.transit
      → Leaves r now chunk grant key (lookup key t.sessions)
      → Left (settle t sess now chunk o)
  unfolding settle
  settle-Left t sess accepted same v h = absurd (cc h)
  settle-Left t sess (refused f) same v h = (same, v)
  settle-Left t sess panicked same v h = absurd (cc h)

  push_open-Left : Left (push_open (sweep_locked now r) now chunk grant)
  unfolding push_open push_into sweep_locked
  push_open-Left =
      let t = sweep_locked now r in
      let sess = session_of now chunk grant in
      elim (Option-cases (lookup chunk.capability t.sessions)) [
        | inr (other, found) ↦
            rw (found, push_open)
              (settle-Left t other (verdict t other now chunk grant) refl (as_swept refl))
        | inl absent ↦
            let u : Relay = record t { sessions = insert chunk.capability sess t.sessions } in
            rw (absent, push_open)
              (if_both Left (leb t.max_sessions (length t.sessions)) (λ h. (refl, as_swept refl))
                (if_both Left (is_over_share t grant) (λ h. (refl, as_swept refl))
                  (settle-Left u sess (verdict u sess now chunk grant) refl (opened absent))))
      ]
    where
      opened :
          lookup chunk.capability (sweep_locked now r).sessions ≡ none
          → Leaves r now chunk grant key (
              lookup key (
                insert chunk.capability (session_of now chunk grant) (sweep_locked now r).sessions))
      opened absent = elim (string_discrete chunk.capability key) [
        | yes same ↦ as_opened (ground arith) (ground arith) (
            ground (
              arith,
              lookup-insert chunk.capability key (session_of now chunk grant)
                  (sweep_locked now r).sessions,
            ))
        | no apart ↦ as_swept (
            ground (
              arith,
              lookup-insert chunk.capability key (session_of now chunk grant)
                  (sweep_locked now r).sessions,
            ))
      ]

-- A push that is refused, for whatever reason, charges no circle, and under every capability leaves
-- what stood there before or what the sweep of idle sessions left, but for one case: the first chunk
-- of a new transfer that is refused after its session was opened leaves that session, with no chunk in
-- its window.
pub push_with_grant-refused :
    (r : Relay) (now : Time) (chunk : Chunk) (grant : Grant) (e : Error) (key : String)
    → (push_with_grant r now chunk grant).1 ≡ refused e
    → ((push_with_grant r now chunk grant).0.transit ≡ r.transit)
      × Leaves r now
          (trim_chunk chunk)
          grant
          key
          (lookup key (push_with_grant r now chunk grant).0.sessions)
unfolding push_with_grant
push_with_grant-refused r now chunk grant e key =
    let c = trim_chunk chunk in
    let P : Relay × Outcome → Type 0 = Left r now c grant e key in
    if_both P (is_malformed r c) (λ h. (refl, as_before refl))
      (if_both P (ltb r.max_chunk_bytes (len c.encrypted_payload)) (λ h. (refl, as_before refl))
        (if_both P (ltb max_chunks_per_transfer (natural c.total_chunks))
          (λ h. (refl, as_before refl)) (push_open-Left r now c grant e key)))
