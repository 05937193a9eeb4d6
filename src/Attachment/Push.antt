-- ===== src/Attachment/Push.antt =====
-- internal/attachment/relay.go: PushWithGrant, in the order of its checks.
use dee_relay.Base.{
  ℕ, ◌+◌, Bool, true, false, ◌&&◌, ◌||◌, not, none, some, [], ◌∷◌, ◌++◌, String, string_key,
  nat_key, ◌==◌, ◌/=◌, ltb, leb, if◌then◌else◌, length, trim_space, is_empty, natural, is_below,
  is_positive, pos,
}
use Prim.Native.String.{len}
use dee_relay.Map.{Map, lookup, insert}
use dee_relay.Model.{Time}
use dee_relay.Attachment.Bitmap.{has_seen, mark_seen, words_for}
use dee_relay.Attachment.Transit.{TransitWindow, no_transit, add, total}
use dee_relay.Attachment.Types.{
  duplicate, window_full, too_many_sessions, invalid, too_large, transit_exhausted, too_many_chunks,
  Outcome, accepted, refused, panicked, Grant, Chunk, Session, Relay, lower_of,
  max_chunks_per_transfer, sweep_locked,
}

unfoldable pub trim_chunk : Chunk → Chunk
trim_chunk chunk = record chunk {
  id = trim_space chunk.id;
  transfer_id = trim_space chunk.transfer_id;
  capability = trim_space chunk.capability;
  recipient = trim_space chunk.recipient;
  encrypted_payload = trim_space chunk.encrypted_payload;
}

-- The first test: a missing field, or a number out of its range.
unfoldable pub is_malformed : Relay → Chunk → Bool
unfolding is_below is_positive natural
is_malformed r chunk =
    is_empty chunk.id
    || is_empty chunk.transfer_id
    || is_empty chunk.capability
    || is_empty chunk.recipient
    || is_empty chunk.encrypted_payload
    || is_below chunk.index 0
    || not (is_positive chunk.total_chunks)
    || not (is_below chunk.index (natural chunk.total_chunks))
    || not (is_positive chunk.size_bytes)
    || ltb r.max_chunk_bytes (natural chunk.size_bytes)

unfoldable pub sessions_for_locked : ℕ → Map String Session → ℕ
sessions_for_locked credential [] = 0
sessions_for_locked credential ((key, sess) ∷ m) =
    let count = sessions_for_locked credential m in
    if sess.credential == credential then count + 1 else count

-- The circle's own allowance of live transfers is spent.
unfoldable pub is_over_share : Relay → Grant → Bool
unfolding sessions_for_locked lower_of is_positive
is_over_share r grant =
    grant.credential /= 0
    && is_positive grant.concurrent_transfers
    && leb (lower_of r.max_sessions grant.concurrent_transfers)
        (sessions_for_locked grant.credential r.sessions)

unfoldable pub session_of : Time → Chunk → Grant → Session
unfolding words_for natural
session_of now chunk grant = record {
  transfer_id = chunk.transfer_id;
  capability = chunk.capability;
  recipient = chunk.recipient;
  window = [];
  bytes = 0;
  total_chunks = natural chunk.total_chunks;
  seen = words_for (natural chunk.total_chunks);
  last_activity = now;
  credential = grant.credential;
  pushed_bytes = 0;
}

-- Another transfer, recipient or number of chunks under the same capability.
unfoldable pub mismatches : Session → Chunk → Bool
unfolding natural
mismatches sess chunk =
    sess.transfer_id /= chunk.transfer_id
    || sess.recipient /= chunk.recipient
    || sess.total_chunks /= natural chunk.total_chunks

-- The circle of the session has no bytes left today for a payload.
unfoldable pub is_transit_spent : Relay → Session → Time → ℕ → Grant → Bool
unfolding total is_positive natural
is_transit_spent r sess now payload_bytes grant =
    if sess.credential /= 0 && is_positive grant.transit_bytes_per_day
    then elim (lookup sess.credential r.transit) [
      | none ↦ false
      | some window ↦ ltb (natural grant.transit_bytes_per_day) (total window now + payload_bytes)
    ]
    else false

-- The session with the chunk in its window and its bit set.
unfoldable pub with_chunk : Session → Time → Chunk → Session
unfolding mark_seen natural
with_chunk sess now chunk = record sess {
  window = sess.window ++ (chunk ∷ []);
  bytes = sess.bytes + len chunk.encrypted_payload;
  pushed_bytes = sess.pushed_bytes + len chunk.encrypted_payload;
  seen = mark_seen sess.seen (natural chunk.index);
  last_activity = now;
}

-- The charge to the circle that opened the transfer.
unfoldable pub charge : ℕ → Time → ℕ → Map ℕ TransitWindow → Map ℕ TransitWindow
unfolding add no_transit
charge credential now n transit =
    if credential == 0 then transit else elim (lookup credential transit) [
      | none ↦ insert credential (add no_transit now n) transit
      | some window ↦ insert credential (add window now n) transit
    ]

unfoldable pub accept : Relay → Session → Time → Chunk → Relay
unfolding with_chunk charge
accept r sess now chunk = record r {
  sessions = insert chunk.capability (with_chunk sess now chunk) r.sessions;
  transit = charge sess.credential now (len chunk.encrypted_payload) r.transit;
}

-- The verdict on a chunk for its session: the checks from the mismatch to the ceiling.
unfoldable pub verdict : Relay → Session → Time → Chunk → Grant → Outcome
unfolding mismatches has_seen is_transit_spent lower_of natural
verdict r sess now chunk grant =
    if mismatches sess chunk
    then refused invalid
    else elim (has_seen sess.seen (natural chunk.index)) [
      | none ↦ panicked
      | some true ↦ refused duplicate
      | some false ↦
          if leb r.max_window (length sess.window)
          then refused window_full
          else if is_transit_spent r sess now (len chunk.encrypted_payload) grant
          then refused transit_exhausted
          else if ltb (lower_of r.max_attachment_bytes grant.attachment_bytes)
              (sess.pushed_bytes + len chunk.encrypted_payload)
          then refused too_large
          else accepted
    ]

unfoldable pub settle : Relay → Session → Time → Chunk → Outcome → Relay × Outcome
unfolding accept
settle r sess now chunk accepted = (accept r sess now chunk, accepted)
settle r sess now chunk (refused e) = (r, refused e)
settle r sess now chunk panicked = (r, panicked)

unfoldable pub push_into : Relay → Session → Time → Chunk → Grant → Relay × Outcome
unfolding verdict settle
push_into r sess now chunk grant = settle r sess now chunk (verdict r sess now chunk grant)

-- From the look-up of the session on; a session that is opened here stays open when the chunk is
-- refused below.
unfoldable pub push_open : Relay → Time → Chunk → Grant → Relay × Outcome
unfolding push_into is_over_share session_of
push_open r now chunk grant = elim (lookup chunk.capability r.sessions) [
  | some sess ↦ push_into r sess now chunk grant
  | none ↦
      if leb r.max_sessions (length r.sessions)
      then (r, refused too_many_sessions)
      else if is_over_share r grant
      then (r, refused too_many_sessions)
      else let sess = session_of now chunk grant in
        push_into (record r { sessions = insert chunk.capability sess r.sessions }) sess now chunk
          grant
]

unfoldable pub push_with_grant : Relay → Time → Chunk → Grant → Relay × Outcome
unfolding trim_chunk is_malformed sweep_locked push_open natural
push_with_grant r now chunk grant =
    let c = trim_chunk chunk in
    if is_malformed r c
    then (r, refused invalid)
    else if ltb r.max_chunk_bytes (len c.encrypted_payload)
    then (r, refused invalid)
    else if ltb max_chunks_per_transfer (natural c.total_chunks)
    then (r, refused too_many_chunks)
    else push_open (sweep_locked now r) now c grant

-- `Grant{}`
abbrev pub no_grant : Grant
no_grant = record {
  credential = 0;
  attachment_bytes = pos 0;
  concurrent_transfers = pos 0;
  transit_bytes_per_day = pos 0;
}

unfoldable pub push : Relay → Time → Chunk → Relay × Outcome
unfolding push_with_grant
push r now chunk = push_with_grant r now chunk no_grant
