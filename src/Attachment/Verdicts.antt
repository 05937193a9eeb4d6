-- ===== src/Attachment/Verdicts.antt =====
-- What the checks of PushWithGrant establish: the invariant of the session that takes the chunk, and
-- of one that is opened for it.
use dee_relay.Base.{
  ℕ, ◌+◌, ◌≤◌, ◌<◌, ◌≡◌, refl, false, some, List, [], ◌∷◌, ◌++◌, String, string_key, nat_key, arith,
  All, length, natural, ℤ, pos, negsuc, length-append,
}
use Prim.Native.String.{len}
use dee_relay.Model.{Time}
use dee_relay.Attachment.Bitmap.{
  has_seen, length-mark_seen, length-words_for, has_seen-mark_same, has_seen-mark_seen,
}
use dee_relay.Attachment.Types.{
  accepted, Grant, Chunk, Session, Relay, lower_of, max_chunks_per_transfer,
}
use dee_relay.Attachment.Push.{mismatches, verdict, with_chunk, session_of}
use dee_relay.Attachment.Invariant.{IsBuffered, InCaps, payload_bytes-append}

-- What the tests before the sessions leave of a chunk.
pub record IsPlain (r : Relay) (chunk : Chunk) : Type 0 where
  pub below : natural chunk.index < natural chunk.total_chunks
  pub small : len chunk.encrypted_payload ≤ r.max_chunk_bytes
  pub spanned : natural chunk.total_chunks ≤ max_chunks_per_transfer

-- What the checks of an accepted chunk say.
pub record IsAccepted (r : Relay) (sess : Session) (chunk : Chunk) : Type 0 where
  pub addressed : chunk.recipient ≡ sess.recipient
  pub spanned : natural chunk.total_chunks ≡ sess.total_chunks
  pub fresh : has_seen sess.seen (natural chunk.index) ≡ some false
  pub room : length sess.window < r.max_window
  pub fits : sess.pushed_bytes + len chunk.encrypted_payload ≤ r.max_attachment_bytes

lower_of-le : (box : ℕ) (c : ℤ) → lower_of box c ≤ box
unfolding lower_of
lower_of-le box (pos n) = ground arith
lower_of-le box (negsuc n) = omega arith

pub verdict-IsAccepted :
    (r : Relay) (sess : Session) (now : Time) (chunk : Chunk) (grant : Grant)
    → verdict r sess now chunk grant ≡ accepted
    → IsAccepted r sess chunk
unfolding verdict mismatches
verdict-IsAccepted r sess now chunk grant h =
    ground (arith, lower_of-le r.max_attachment_bytes grant.attachment_bytes)

-- The chunk in the window and the bit in the map.
IsBuffered-with_chunk :
    (max_bytes : ℕ) (sess : Session) (now : Time) (chunk : Chunk)
    → (chunks : List Chunk) → All (IsBuffered max_bytes sess) chunks
    → IsBuffered max_bytes (with_chunk sess now chunk) chunk
    → All (IsBuffered max_bytes (with_chunk sess now chunk)) (chunks ++ (chunk ∷ []))
unfolding with_chunk
IsBuffered-with_chunk max_bytes sess now chunk [] ps p = (p, tt)
IsBuffered-with_chunk max_bytes sess now chunk (c ∷ chunks) ps p = (
  record {
    small = ps.0.small;
    addressed = ps.0.addressed;
    below = ps.0.below;
    seen = has_seen-mark_seen sess.seen (natural chunk.index) (natural c.index) ps.0.seen;
  },
  IsBuffered-with_chunk max_bytes sess now chunk chunks ps.1 p,
)

pub with_chunk-InCaps :
    (r : Relay) (key : String) (sess : Session) (now : Time) (chunk : Chunk)
    → IsPlain r chunk
    → IsAccepted r sess chunk
    → InCaps r key sess
    → InCaps r key (with_chunk sess now chunk)
unfolding with_chunk
with_chunk-InCaps r key sess now chunk plain ok v = record {
  filed = v.filed;
  few = omega (arith, ok.room, length-append sess.window (chunk ∷ []));
  counted = omega (arith, v.counted, payload_bytes-append sess.window (chunk ∷ []));
  held = omega (arith, v.held);
  capped = ok.fits;
  spanned = v.spanned;
  sized = omega (arith, v.sized, length-mark_seen sess.seen (natural chunk.index));
  buffered = IsBuffered-with_chunk r.max_chunk_bytes sess now chunk sess.window v.buffered (record {
    small = plain.small;
    addressed = ok.addressed;
    below = omega (arith, plain.below, ok.spanned);
    seen = has_seen-mark_same sess.seen (natural chunk.index) ok.fresh;
  });
}

pub session_of-InCaps :
    (r : Relay) (now : Time) (chunk : Chunk) (grant : Grant)
    → IsPlain r chunk
    → InCaps r chunk.capability (session_of now chunk grant)
unfolding session_of
session_of-InCaps r now chunk grant plain = record {
  filed = refl;
  few = omega arith;
  counted = refl;
  held = omega arith;
  capped = omega arith;
  spanned = plain.spanned;
  sized = length-words_for (natural chunk.total_chunks);
  buffered = tt;
}
