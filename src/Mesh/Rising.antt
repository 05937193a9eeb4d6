-- ===== src/Mesh/Rising.antt =====
-- SnapshotSince: the refs of a page rise by arrival number, and the page's mark is the last of them.
use dee_relay.Base.{
  ℕ, zero, suc, ◌+◌, ◌≤◌, ◌<◌, ◌≡◌, refl, Bool, true, false, List, [], ◌∷◌, ◌++◌, String, nat_key,
  ◌==◌, Bool-cases, inl, inr, ltb→lt, arith, ltb, length, take, All, if_both,
}
use dee_relay.Map.{Map}
use dee_relay.Model.{SyncPayload}
use dee_relay.Queue.Store as QueueStore
use dee_relay.Queue.Fetch.{sort_by}
use dee_relay.Queue.Replicate.{Ref, pending_refs, pending_since, fill_page}
use dee_relay.Queue.Ops.Sorting.{IsSorted, sort_by-IsSorted, All-sort_by}
use dee_relay.Mesh.Serving.{tally, IsUnique, pending_since-IsUnique}

-- The arrival number of the last ref, and of none of them the mark.
unfoldable pub last_or : ℕ → List Ref → ℕ
last_or d [] = d
last_or d (r ∷ rs) = last_or r.seq rs

-- Each arrival number is above what comes before it.
abbrev pub IsRising : ℕ → List Ref → Type 0
IsRising d [] = Unit
IsRising d (r ∷ rs) = (d < r.seq) × IsRising r.seq rs

All-above :
    (n : ℕ) (rs : List Ref)
    → All (λ r. n ≤ r.seq) rs
    → tally (λ q. q == n) rs ≤ 0
    → All (λ r. n < r.seq) rs
unfolding tally
All-above n [] h none_ = tt
All-above n (r ∷ rs) h none_ = (ground arith, All-above n rs h.1 (omega arith))

sorted-IsRising :
    (d : ℕ) (rs : List Ref)
    → All (λ r. d < r.seq) rs
    → IsSorted (λ r. r.seq) rs
    → ((n : ℕ) → tally (λ q. q == n) rs ≤ 1)
    → IsRising d rs
unfolding tally
sorted-IsRising d [] h s u = tt
sorted-IsRising d (r ∷ rs) h s u = (
  h.0,
  sorted-IsRising r.seq rs (All-above r.seq rs s.0 (ground (arith, u r.seq))) s.1
      (λ n. omega (arith, u n)),
)

pub tally-IsRising :
    (mark d : ℕ) (rs : List Ref) → mark ≤ d → IsRising d rs → tally (λ q. ltb mark q) rs ≡ length rs
unfolding tally
tally-IsRising mark d [] h v = refl
tally-IsRising mark d (r ∷ rs) h v =
    ground (arith, tally-IsRising mark r.seq rs (omega (arith, v.0)) v.1)

pub last_or-take : (d n : ℕ) (rs : List Ref) → IsRising d rs → d ≤ last_or d (take n rs)
unfolding last_or
last_or-take d zero rs v = omega arith
last_or-take d (suc n) [] v = omega arith
last_or-take d (suc n) (r ∷ rs) v = omega (arith, v.0, last_or-take r.seq n rs v.1)

-- What is after the last of the taken refs is all but the taken ones.
pub tally-last_or :
    (d n : ℕ) (rs : List Ref)
    → IsRising d rs
    → tally (λ q. ltb (last_or d (take n rs)) q) rs + length (take n rs) ≡ length rs
unfolding tally last_or
tally-last_or d zero rs v = omega (arith, tally-IsRising d d rs (omega arith) v)
tally-last_or d (suc n) [] v = refl
tally-last_or d (suc n) (r ∷ rs) v =
    ground (arith, tally-last_or r.seq n rs v.1, last_or-take r.seq n rs v.1)

pub fill_page-last_or :
    (s : QueueStore.Store) (rs : List Ref) (p : SyncPayload)
    → (fill_page s rs p).next_seq ≡ last_or p.next_seq rs
unfolding fill_page last_or
fill_page-last_or s [] p = refl
fill_page-last_or s (r ∷ rs) p =
    if_both (λ (q : SyncPayload). (fill_page s rs q).next_seq ≡ last_or r.seq rs) r.is_ack
      (fill_page-last_or s rs _) (fill_page-last_or s rs _)

pub fill_page-epoch :
    (s : QueueStore.Store) (rs : List Ref) (p : SyncPayload) → (fill_page s rs p).epoch ≡ p.epoch
unfolding fill_page
fill_page-epoch s [] p = refl
fill_page-epoch s (r ∷ rs) p =
    if_both (λ (q : SyncPayload). (fill_page s rs q).epoch ≡ p.epoch) r.is_ack
      (fill_page-epoch s rs _) (fill_page-epoch s rs _)

All-pending_refs :
    (is_ack : Bool) (since : ℕ) (m : Map String ℕ)
    → All (λ r. since < r.seq) (pending_refs is_ack since m)
unfolding pending_refs
All-pending_refs is_ack since [] = tt
All-pending_refs is_ack since ((id, q) ∷ m) =
    let rest = All-pending_refs is_ack since m in
    elim (Bool-cases (ltb since q)) [
      | inl after ↦ rw after (ltb→lt since q after, rest)
      | inr before ↦ rw before rest
    ]

All-append :
    (since : ℕ) (rs ts : List Ref)
    → All (λ r. since < r.seq) rs
    → All (λ r. since < r.seq) ts
    → All (λ r. since < r.seq) (rs ++ ts)
All-append since [] ts h k = k
All-append since (r ∷ rs) ts h k = (h.0, All-append since rs ts h.1 k)

pub pending_since-IsRising :
    (s : QueueStore.Store) (since : ℕ) → IsUnique s → IsRising since (pending_since s since)
unfolding pending_since
pending_since-IsRising s since u =
    let refs = pending_refs false since s.message_seq ++ pending_refs true since s.ack_seq in
    sorted-IsRising since (sort_by (λ r. r.seq) refs)
      (All-sort_by (λ (r : Ref). r.seq) (λ r. since < r.seq) refs
        (All-append since (pending_refs false since s.message_seq)
          (pending_refs true since s.ack_seq) (All-pending_refs false since s.message_seq)
          (All-pending_refs true since s.ack_seq)))
      (sort_by-IsSorted (λ (r : Ref). r.seq) refs) (λ n. pending_since-IsUnique s since n u)
