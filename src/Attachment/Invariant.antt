-- ===== src/Attachment/Invariant.antt =====
-- The relay's invariant: what a session holds in flight is within the caps, its byte totals are those
-- of its window, and its bitmap has the bit of every chunk in the window.
use dee_relay.Base.{
  ℕ, ◌+◌, ◌/◌, ◌≤◌, ◌<◌, ◌≡◌, true, some, List, [], ◌∷◌, ◌++◌, String, string_key, arith, All,
  length, natural, if_both,
}
use Prim.Native.String.{len}
use dee_relay.Map.{Map, remove, Distinct, Distinct-remove}
use dee_relay.Map.Count.{length-remove}
use dee_relay.Map.Entries.{Entries, Entries-remove}
use dee_relay.Model.{Time, Duration}
use dee_relay.Attachment.Bitmap.{has_seen}
use dee_relay.Attachment.Types.{
  Chunk, Session, Relay, is_idle, sweep_idle, sweep_locked, max_chunks_per_transfer,
}

-- The bytes of the payloads of a window.
abbrev pub payload_bytes : List Chunk → ℕ
payload_bytes [] = 0
payload_bytes (chunk ∷ chunks) = len chunk.encrypted_payload + payload_bytes chunks

pub payload_bytes-append :
    (xs ys : List Chunk) → payload_bytes (xs ++ ys) ≡ payload_bytes xs + payload_bytes ys
payload_bytes-append [] ys = omega arith
payload_bytes-append (x ∷ xs) ys = omega (arith, payload_bytes-append xs ys)

-- A chunk in a window.
pub record IsBuffered (max_bytes : ℕ) (sess : Session) (chunk : Chunk) : Type 0 where
  pub small : len chunk.encrypted_payload ≤ max_bytes
  pub addressed : chunk.recipient ≡ sess.recipient
  pub below : natural chunk.index < sess.total_chunks
  pub seen : has_seen sess.seen (natural chunk.index) ≡ some true

pub record IsSession (max_window max_bytes ceiling : ℕ) (key : String) (sess : Session)
    : Type 0 where
  pub filed : sess.capability ≡ key
  pub few : length sess.window ≤ max_window
  pub counted : sess.bytes ≡ payload_bytes sess.window
  pub held : sess.bytes ≤ sess.pushed_bytes
  pub capped : sess.pushed_bytes ≤ ceiling
  pub spanned : sess.total_chunks ≤ max_chunks_per_transfer
  pub sized : length sess.seen ≡ (sess.total_chunks + 63) / 64
  pub buffered : All (IsBuffered max_bytes sess) sess.window

-- The predicate at the relay's own caps.
abbrev pub InCaps : Relay → String → Session → Type 0
InCaps r = IsSession r.max_window r.max_chunk_bytes r.max_attachment_bytes

pub record IsRelay (r : Relay) : Type 0 where
  pub distinct : Distinct r.sessions
  pub few : length r.sessions ≤ r.max_sessions
  pub each : Entries (InCaps r) r.sessions

-- What a map of sessions keeps when entries are deleted.
record Shrinks (P : String → Session → Type 0) (most : ℕ) (m : Map String Session) : Type 0 where
  distinct : Distinct m
  few : length m ≤ most
  each : Entries P m

sweep_idle-Shrinks :
    (P : String → Session → Type 0) (most : ℕ) (idle : Duration) (now : Time)
    (entries m : Map String Session)
    → Shrinks P most m
    → Shrinks P most (sweep_idle idle now entries m)
unfolding sweep_idle
sweep_idle-Shrinks P most idle now [] m v = v
sweep_idle-Shrinks P most idle now ((key, sess) ∷ entries) m v =
    if_both (λ (t : Map String Session). Shrinks P most (sweep_idle idle now entries t))
      (is_idle idle now sess)
      (sweep_idle-Shrinks P most idle now entries (remove key m) (record {
        distinct = Distinct-remove key m v.distinct;
        few = omega (arith, v.few, length-remove key m v.distinct);
        each = Entries-remove P key m v.each;
      }))
      (sweep_idle-Shrinks P most idle now entries m v)

pub sweep_locked-IsRelay : (now : Time) {r : Relay} → IsRelay r → IsRelay (sweep_locked now r)
unfolding sweep_locked
sweep_locked-IsRelay now {r} v =
    let w =
      sweep_idle-Shrinks (InCaps r) r.max_sessions r.idle_timeout now r.sessions r.sessions
        (record { distinct = v.distinct; few = v.few; each = v.each }) in
    record { distinct = w.distinct; few = w.few; each = w.each }
