-- ===== src/Attachment/Moves.antt =====
-- What one call does to one live session: nothing, a chunk put at the end of its window, or the whole
-- window handed over.
use dee_relay.Base.{
  ◌≡◌, ◌≢◌, refl, subst, ◌∙◌, false, none, some, List, [], ◌∷◌, String, string_key, nat_key, ◌==◌,
  arith, length, if_both, Option-cases, inl, inr, ltb, leb, if◌then◌else◌, natural, string_discrete,
}
use Prim.Native.String.{len}
use dee_relay.Map.{
  Map, lookup, insert, remove, lookup-insert, lookup-insert_same, lookup-remove, Distinct,
}
use dee_relay.Map.Keep.{keep_unless, passes, passes-lookup}
use dee_relay.Model.{Time, Duration}
use dee_relay.Attachment.Types.{
  Outcome, accepted, refused, panicked, Grant, Chunk, Session, Relay, is_idle, sweep_idle,
  sweep_locked, max_chunks_per_transfer,
}
use dee_relay.Attachment.Bitmap.{has_seen}
use dee_relay.Attachment.Verdicts.{verdict-IsAccepted}
use dee_relay.Attachment.Push.{
  trim_chunk, is_malformed, with_chunk, session_of, is_over_share, verdict, settle, accept,
  push_into, push_open, push_with_grant,
}
use dee_relay.Attachment.Ends.{emptied}

-- The chunks that go in and the chunks that come out.
pub data Moves (s t : Session) (ins outs : List Chunk) : Type 0 where
  stays : t ≡ s → ins ≡ [] → outs ≡ [] → Moves s t ins outs
  takes :
      (now : Time) (chunk : Chunk)
      → has_seen s.seen (natural chunk.index) ≡ some false
      → t ≡ with_chunk s now chunk
      → ins ≡ chunk ∷ []
      → outs ≡ []
      → Moves s t ins outs
  gives : (last : Time) → t ≡ emptied s last → ins ≡ [] → outs ≡ s.window → Moves s t ins outs

sweep_idle-passes :
    (idle : Duration) (now : Time) (entries m : Map String Session) (key : String)
    → lookup key (sweep_idle idle now entries m)
      ≡ (if passes (is_idle idle now) key entries then none else lookup key m)
unfolding sweep_idle
sweep_idle-passes idle now [] m key = refl
sweep_idle-passes idle now ((j, sess) ∷ entries) m key = ground (
  arith,
  sweep_idle-passes idle now entries (remove j m) key,
  sweep_idle-passes idle now entries m key,
  lookup-remove j key m,
)

-- The sweep drops the sessions that are idle, and those alone.
pub lookup-sweep_locked :
    (r : Relay) (now : Time) (key : String)
    → Distinct r.sessions
    → lookup key (sweep_locked now r).sessions
      ≡ keep_unless (is_idle r.idle_timeout now) (lookup key r.sessions)
unfolding sweep_locked
lookup-sweep_locked r now key d =
    sweep_idle-passes r.idle_timeout now r.sessions r.sessions key
    ∙ passes-lookup (is_idle r.idle_timeout now) key r.sessions d

-- The chunk that an accepted push put under a capability.
unfoldable pub arrived_of : String → Chunk → Outcome → List Chunk
arrived_of key chunk accepted = if chunk.capability == key then chunk ∷ [] else []
arrived_of key chunk (refused e) = []
arrived_of key chunk panicked = []

module _ (key : String) (sess : Session) where
  -- The session is still there, and moved as it should.
  abbrev pub Went : Relay → List Chunk → List Chunk → Type 0
  Went r ins outs = (t : Session) × (lookup key r.sessions ≡ some t) × Moves sess t ins outs

  pub still : (r : Relay) → lookup key r.sessions ≡ some sess → Went r [] []
  still r e = (sess, e, stays refl refl refl)

  module _ (now : Time) (chunk : Chunk) (grant : Grant) where
    abbrev Pushed : Relay × Outcome → Type 0
    Pushed (r, o) = Went r (arrived_of key chunk o) []

    settle-Pushed :
        (r : Relay) (other : Session) (o : Outcome)
        → lookup key r.sessions ≡ some sess
        → lookup chunk.capability r.sessions ≡ some other
        → (o ≡ accepted → has_seen other.seen (natural chunk.index) ≡ some false)
        → Pushed (settle r other now chunk o)
    unfolding settle accept arrived_of
    settle-Pushed r other accepted e found fresh = elim (string_discrete chunk.capability key) [
      | yes same ↦
          let one : other ≡ sess = ground arith in
          (
            with_chunk sess now chunk,
            ground (
              arith,
              one,
              lookup-insert chunk.capability key (with_chunk other now chunk) r.sessions,
            ),
            takes now chunk
                (subst (λ (t : Session). has_seen t.seen (natural chunk.index) ≡ some false) one
                  (fresh refl))
                refl (ground arith) refl,
          )
      | no apart ↦ (
        sess,
        ground (arith, lookup-insert chunk.capability key (with_chunk other now chunk) r.sessions),
        stays refl (ground arith) refl,
      )
    ]
    settle-Pushed r other (refused x) e found fresh = still r e
    settle-Pushed r other panicked e found fresh = still r e

    push_into-Pushed :
        (r : Relay) (other : Session)
        → lookup key r.sessions ≡ some sess
        → lookup chunk.capability r.sessions ≡ some other
        → Pushed (push_into r other now chunk grant)
    unfolding push_into
    push_into-Pushed r other e found =
        settle-Pushed r other (verdict r other now chunk grant) e found
          (λ h. (verdict-IsAccepted r other now chunk grant h).fresh)

    push_open-Pushed :
        (r : Relay) → lookup key r.sessions ≡ some sess → Pushed (push_open r now chunk grant)
    unfolding push_open arrived_of
    push_open-Pushed r e = elim (Option-cases (lookup chunk.capability r.sessions)) [
      | inr (other, found) ↦ rw (found, push_open) (push_into-Pushed r other e found)
      | inl absent ↦
          let fresh = session_of now chunk grant in
          let m = insert chunk.capability fresh r.sessions in
          let apart : chunk.capability ≢ key = λ (same : chunk.capability ≡ key). ground arith in
          rw (absent, push_open)
            (if_both Pushed (leb r.max_sessions (length r.sessions)) (still r e) (
              if_both Pushed (is_over_share r grant) (still r e) (
                push_into-Pushed (record r { sessions = m }) fresh
                  (ground (arith, lookup-insert chunk.capability key fresh r.sessions))
                  (lookup-insert_same chunk.capability fresh r.sessions))))
    ]

  -- The session outlives the sweep that a call starts with.
  pub swept :
      (r : Relay) (now : Time)
      → Distinct r.sessions
      → is_idle r.idle_timeout now sess ≡ false
      → lookup key r.sessions ≡ some sess
      → lookup key (sweep_locked now r).sessions ≡ some sess
  swept r now d awake e = rw (lookup-sweep_locked r now key d, e, keep_unless, awake) refl

  pub push_with_grant-Went :
      (r : Relay) (now : Time) (chunk : Chunk) (grant : Grant)
      → Distinct r.sessions
      → is_idle r.idle_timeout now sess ≡ false
      → lookup key r.sessions ≡ some sess
      → Went
          (push_with_grant r now chunk grant).0
          (arrived_of key (trim_chunk chunk) (push_with_grant r now chunk grant).1)
          []
  unfolding push_with_grant arrived_of
  push_with_grant-Went r now chunk grant d awake e =
      let c = trim_chunk chunk in
      let P : Relay × Outcome → Type 0 = λ x. Pushed now c grant x in
      if_both P (is_malformed r c) (still r e) (
        if_both P (ltb r.max_chunk_bytes (len c.encrypted_payload)) (still r e) (
          if_both P (ltb max_chunks_per_transfer (natural c.total_chunks)) (still r e)
            (push_open-Pushed now c grant (sweep_locked now r) (swept r now d awake e))))
