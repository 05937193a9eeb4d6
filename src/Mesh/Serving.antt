-- ===== src/Mesh/Serving.antt =====
-- SnapshotSince: how many records of the store come after a mark, counted in its refs.
use dee_relay.Base.{
  ℕ, ◌+◌, ◌≤◌, ◌≡◌, refl, Bool, true, false, ◌&&◌, List, [], ◌∷◌, ◌++◌, String, string_key, nat_key,
  ◌==◌, arith, ltb,
}
use dee_relay.Map.{Map}
use dee_relay.Map.Count.{count, one_if}
use dee_relay.Queue.Store as QueueStore
use dee_relay.Queue.Fetch.{insert_by, sort_by}
use dee_relay.Queue.Replicate.{Ref, pending_refs, pending_since}

-- How many refs have an arrival number of a kind.
unfoldable pub tally : (ℕ → Bool) → List Ref → ℕ
tally p [] = 0
tally p (r ∷ rs) = one_if (p r.seq) + tally p rs

tally-append : (p : ℕ → Bool) (rs ts : List Ref) → tally p (rs ++ ts) ≡ tally p rs + tally p ts
unfolding tally
tally-append p [] ts = omega arith
tally-append p (r ∷ rs) ts = omega (arith, tally-append p rs ts)

tally-insert_by :
    (p : ℕ → Bool) (r : Ref) (rs : List Ref)
    → tally p (insert_by (λ t. t.seq) r rs) ≡ one_if (p r.seq) + tally p rs
unfolding tally insert_by
tally-insert_by p r [] = refl
tally-insert_by p r (q ∷ rs) = ground (arith, tally-insert_by p r rs)

tally-sort_by : (p : ℕ → Bool) (rs : List Ref) → tally p (sort_by (λ t. t.seq) rs) ≡ tally p rs
unfolding tally sort_by
tally-sort_by p [] = refl
tally-sort_by p (r ∷ rs) =
    omega (arith, tally-insert_by p r (sort_by (λ t. t.seq) rs), tally-sort_by p rs)

tally-pending_refs :
    (p : ℕ → Bool) (is_ack : Bool) (since : ℕ) (m : Map String ℕ)
    → tally p (pending_refs is_ack since m) ≡ count (λ q. ltb since q && p q) m
unfolding tally pending_refs count
tally-pending_refs p is_ack since [] = refl
tally-pending_refs p is_ack since ((id, q) ∷ m) =
    ground (arith, tally-pending_refs p is_ack since m)

pub count-ext : (p q : ℕ → Bool) (m : Map String ℕ) → ((n : ℕ) → p n ≡ q n) → count p m ≡ count q m
unfolding count
count-ext p q [] h = refl
count-ext p q ((id, n) ∷ m) h = rw (h n) (omega (arith, count-ext p q m h))

pub count-monotone :
    (p q : ℕ → Bool) (m : Map String ℕ)
    → ((n : ℕ) → one_if (p n) ≤ one_if (q n))
    → count p m ≤ count q m
unfolding count
count-monotone p q [] h = omega arith
count-monotone p q ((id, n) ∷ m) h = omega (arith, h n, count-monotone p q m h)

-- The records of a store that arrived after a mark.
unfoldable pub left_after : QueueStore.Store → ℕ → ℕ
left_after s since = count (λ q. ltb since q) s.message_seq + count (λ q. ltb since q) s.ack_seq

-- No two records have one arrival number.
abbrev pub IsUnique : QueueStore.Store → Type 0
IsUnique s = (n : ℕ) → count (λ q. q == n) s.message_seq + count (λ q. q == n) s.ack_seq ≤ 1

abbrev after_both : ℕ → ℕ → ℕ → Bool
after_both since mark q = ltb since q && ltb mark q

tally-pending_since :
    (s : QueueStore.Store) (since : ℕ) (p : ℕ → Bool)
    → tally p (pending_since s since)
      ≡ count (λ q. ltb since q && p q) s.message_seq + count (λ q. ltb since q && p q) s.ack_seq
unfolding pending_since
tally-pending_since s since p = omega (
  arith,
  tally-sort_by p (pending_refs false since s.message_seq ++ pending_refs true since s.ack_seq),
  tally-append p (pending_refs false since s.message_seq) (pending_refs true since s.ack_seq),
  tally-pending_refs p false since s.message_seq,
  tally-pending_refs p true since s.ack_seq,
)

-- After a later mark the refs that waited after an earlier one are all that is left.
pub tally-left_after :
    (s : QueueStore.Store) (since mark : ℕ)
    → since ≤ mark
    → tally (λ q. ltb mark q) (pending_since s since) ≡ left_after s mark
unfolding left_after
tally-left_after s since mark h = omega (
  arith,
  tally-pending_since s since (λ q. ltb mark q),
  count-ext (after_both since mark) (λ q. ltb mark q) s.message_seq (λ n. ground arith),
  count-ext (after_both since mark) (λ q. ltb mark q) s.ack_seq (λ n. ground arith),
)

pub pending_since-IsUnique :
    (s : QueueStore.Store) (since n : ℕ)
    → IsUnique s
    → tally (λ q. q == n) (pending_since s since) ≤ 1
pending_since-IsUnique s since n u = omega (
  arith,
  u n,
  tally-pending_since s since (λ q. q == n),
  count-monotone (λ q. ltb since q && q == n) (λ q. q == n) s.message_seq (λ k. ground arith),
  count-monotone (λ q. ltb since q && q == n) (λ q. q == n) s.ack_seq (λ k. ground arith),
)
