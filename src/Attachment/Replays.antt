-- ===== src/Attachment/Replays.antt =====
-- No chunk index of a live transfer is accepted twice, drained or not.
use dee_relay.Base.{
  ◌≡◌, ◌≢◌, sym, subst, true, some, List, [], ◌∷◌, ◌++◌, String, string_key, All, natural,
}
use dee_relay.Map.{lookup}
use dee_relay.Model.{Time}
use dee_relay.Attachment.Bitmap.{has_seen, has_seen-mark_seen, has_seen-mark_same}
use dee_relay.Attachment.Types.{Chunk, Session, Relay}
use dee_relay.Attachment.Push.{with_chunk}
use dee_relay.Attachment.Ends.{emptied}
use dee_relay.Attachment.Invariant.{IsRelay}
use dee_relay.Attachment.Run.{Call, step, step-IsRelay}
use dee_relay.Attachment.Moves.{Moves, stays, takes, gives}
use dee_relay.Attachment.Traces.{arrived, delivered, arrivals, IsSpared, step-Went}

-- The bit of a chunk's index is set.
abbrev pub IsSeen : Session → Chunk → Type 0
IsSeen sess chunk = has_seen sess.seen (natural chunk.index) ≡ some true

-- No two chunks have one index.
abbrev pub IsOnce : List Chunk → Type 0
IsOnce [] = Unit
IsOnce (c ∷ cs) = All (λ d. natural d.index ≢ natural c.index) cs × IsOnce cs

-- New indices, each of them once.
abbrev pub IsFresh : Session → List Chunk → Type 0
IsFresh sess cs = All (λ c. ¬ IsSeen sess c) cs × IsOnce cs

unseen_before :
    (s t : Session)
    → ((c : Chunk) → IsSeen s c → IsSeen t c)
    → (cs : List Chunk) → All (λ c. ¬ IsSeen t c) cs
    → All (λ c. ¬ IsSeen s c) cs
unseen_before s t f [] ps = tt
unseen_before s t f (c ∷ cs) ps = (λ h. ps.0 (f c h), unseen_before s t f cs ps.1)

other_index :
    (t : Session) (c : Chunk)
    → IsSeen t c
    → (cs : List Chunk) → All (λ d. ¬ IsSeen t d) cs
    → All (λ d. natural d.index ≢ natural c.index) cs
other_index t c h [] ps = tt
other_index t c h (d ∷ cs) ps =
    (λ e. ps.0 (subst (λ i. has_seen t.seen i ≡ some true) (sym e) h), other_index t c h cs ps.1)

Moves-once :
    (s t : Session) (ins outs rest : List Chunk)
    → Moves s t ins outs
    → IsFresh t rest
    → IsFresh s (ins ++ rest)
unfolding with_chunk emptied
Moves-once s t ins outs rest (stays same i o) v = rw i (subst (λ x. IsFresh x rest) same v)
Moves-once s t ins outs rest (takes now chunk f same i o) v =
    let next = with_chunk s now chunk in
    let w = subst (λ x. IsFresh x rest) same v in
    let idx = natural chunk.index in
    rw i (
      (
        λ h. cc (f, h),
        unseen_before s next (λ c h. has_seen-mark_seen s.seen idx (natural c.index) h) rest w.0,
      ),
      (other_index next chunk (has_seen-mark_same s.seen idx f) rest w.0, w.1),
    )
Moves-once s t ins outs rest (gives at same i o) v = rw i (subst (λ x. IsFresh x rest) same v)

-- While a transfer's session lives, no two chunks that pushes got accepted under its capability have
-- one index, and none has an index that was accepted before, whether that chunk still waits or was
-- handed over long ago, and whatever its id.
pub run-once :
    (key : String) (sess : Session) (r : Relay) (cs : List (Time × Call))
    → IsRelay r
    → IsSpared key r cs
    → lookup key r.sessions ≡ some sess
    → IsFresh sess (arrivals key r cs)
unfolding arrivals
run-once key sess r [] v spared e = (tt, tt)
run-once key sess r (c ∷ cs) v spared e =
    let (mid, found, moves) = step-Went key sess r c v spared.0 e in
    Moves-once sess mid (arrived key r c) (delivered key r c) (arrivals key (step r c) cs) moves
      (run-once key mid (step r c) cs (step-IsRelay r c v) spared.1 found)
