-- ===== src/Prekey/Pools.antt =====
-- internal/prekey/store.go: the store of pools, its pruning and its counts.
-- The source keeps a bucket's tokens in a float64. Here they are exact: `credit` is the tokens times
-- the time that refills one, a number of nanoseconds.
use dee_relay.Base.{
  ℕ, ◌+◌, ◌*◌, ◌==◌, ◌||◌, Bool, List, [], ◌∷◌, String, string_key, nat_key, if◌then◌else◌, ℤ,
  or_default, pos, length,
}
use Prim.Native.String.{◌++◌}
use dee_relay.Map.{Map, get_or, has, insert, remove}
use dee_relay.Model.{Time, Duration, after, PrekeyEntry}

pub record Entry : Type 0 where
  pub value : PrekeyEntry
  pub published_at : Time

pub record BucketState : Type 0 where
  pub credit : ℕ
  pub last_refill : Time

pub record Limits : Type 0 where
  pub max_per_recipient : ℤ
  pub max_buckets : ℤ
  pub published_ttl : ℤ
  pub claim_burst : ℤ
  pub claim_refill : ℤ

pub record Store : Type 0 where
  pub max_per_recipient : ℕ
  pub max_buckets : ℕ
  pub published_ttl : Duration
  pub claim_burst : ℕ
  pub claim_refill : Duration
  pub queues : Map String (List Entry)
  pub last_resort : Map String Entry
  pub tokens : Map String BucketState

unfoldable pub bucket_key : String → String → String
bucket_key owner_tag device_key = owner_tag ++ "\0" ++ device_key

unfoldable pub new_store_with_limits : Limits → Store
unfolding or_default
new_store_with_limits limits = record {
  max_per_recipient = or_default 100 limits.max_per_recipient;
  max_buckets = or_default 5_000 limits.max_buckets;
  published_ttl = or_default (30 * 24 * 3_600_000_000_000) limits.published_ttl;
  claim_burst = or_default 32 limits.claim_burst;
  claim_refill = or_default 1_000_000_000 limits.claim_refill;
  queues = [];
  last_resort = [];
  tokens = [];
}

unfoldable pub new_store : ℤ → ℤ → Store
unfolding new_store_with_limits
new_store max_per_recipient published_ttl = new_store_with_limits (record {
  max_per_recipient = max_per_recipient;
  max_buckets = pos 0;
  published_ttl = published_ttl;
  claim_burst = pos 0;
  claim_refill = pos 0;
})

unfoldable pub is_kept : Store → Time → Entry → Bool
is_kept s now item = after (item.published_at + s.published_ttl) now

-- The entries of a queue that are not too old.
unfoldable pub kept_of : (Entry → Bool) → List Entry → List Entry
kept_of p [] = []
kept_of p (item ∷ queue) = let rest = kept_of p queue in if p item then item ∷ rest else rest

unfoldable pub set_queue : String → List Entry → Store → Store
set_queue key queue s = record s {
  queues = if length queue == 0 then remove key s.queues else insert key queue s.queues;
}

unfoldable pub prune_queues : Time → Map String (List Entry) → Store → Store
unfolding is_kept kept_of set_queue
prune_queues now [] s = s
prune_queues now ((key, queue) ∷ m) s =
    prune_queues now m (set_queue key (kept_of (is_kept s now) queue) s)

unfoldable pub prune_last_resort : Time → Map String Entry → Store → Store
unfolding is_kept
prune_last_resort now [] s = s
prune_last_resort now ((key, item) ∷ m) s =
    prune_last_resort now m
      (if is_kept s now item then s else record s { last_resort = remove key s.last_resort })

unfoldable pub prune_tokens : Map String BucketState → Store → Store
prune_tokens [] s = s
prune_tokens ((key, state) ∷ m) s = prune_tokens m (
    if length (get_or [] key s.queues) == 0
    then if has key s.last_resort then s else record s { tokens = remove key s.tokens }
    else s)

unfoldable pub prune_locked : Time → Store → Store
unfolding prune_queues prune_last_resort prune_tokens
prune_locked now s =
    let s₁ = prune_queues now s.queues s in
    let s₂ = prune_last_resort now s₁.last_resort s₁ in prune_tokens s₂.tokens s₂

unfoldable pub bucket_exists_locked : Store → String → Bool
bucket_exists_locked s key = has key s.queues || has key s.last_resort

-- The last-resort prekeys whose key has no queue.
unfoldable pub count_alone : Store → Map String Entry → ℕ
count_alone s [] = 0
count_alone s ((key, item) ∷ m) =
    let rest = count_alone s m in if has key s.queues then rest else rest + 1

unfoldable pub bucket_count_locked : Store → ℕ
unfolding count_alone
bucket_count_locked s = length s.queues + count_alone s s.last_resort

unfoldable pub bucket_count : Store → Time → Store × ℕ
unfolding prune_locked bucket_count_locked
bucket_count s now = let s' = prune_locked now s in (s', bucket_count_locked s')

unfoldable pub sum_queues : Map String (List Entry) → ℕ
sum_queues [] = 0
sum_queues ((key, queue) ∷ m) = length queue + sum_queues m

unfoldable pub count_entries : Store → Time → Store × ℕ
unfolding prune_locked sum_queues
count_entries s now = let s' = prune_locked now s in (s', sum_queues s'.queues)

unfoldable pub last_resort_count : Store → Time → Store × ℕ
unfolding prune_locked
last_resort_count s now = let s' = prune_locked now s in (s', length s'.last_resort)
