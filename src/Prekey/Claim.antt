-- ===== src/Prekey/Claim.antt =====
-- internal/prekey/store.go: Claim and its token bucket, and Status.
use dee_relay.Base.{
  ℕ, ◌+◌, ◌-◌, ◌*◌, Bool, true, Option, none, some, List, [], ◌∷◌, String, string_key, nat_key,
  if◌then◌else◌, ltb, leb, length, trim_space, min,
}
use dee_relay.Map.{lookup, get_or, insert}
use dee_relay.Model.{Time, PrekeyEntry}
use dee_relay.Prekey.Pools.{Store, Entry, BucketState, bucket_key, prune_locked, set_queue}

-- The bucket of a key, refilled up to now; one seen for the first time is full.
unfoldable pub refilled : Store → Time → Option BucketState → BucketState
refilled s now none = record { credit = s.claim_burst * s.claim_refill; last_refill = now }
refilled s now (some st) =
    if ltb st.last_refill now
    then record {
      credit = min (st.credit + (now - st.last_refill)) (s.claim_burst * s.claim_refill);
      last_refill = now;
    }
    else st

unfoldable pub take_token_locked : Store → String → Time → Store × Bool
unfolding refilled
take_token_locked s key now =
    let st = refilled s now (lookup key s.tokens) in
    let available = leb s.claim_refill st.credit in
    let left : BucketState = record {
      credit = if available then st.credit - s.claim_refill else st.credit;
      last_refill = st.last_refill;
    } in
    (record s { tokens = insert key left s.tokens }, available)

-- The last-resort prekey of the key, where there is one.
unfoldable pub serve_last_resort : Store → String → Store × Option PrekeyEntry
serve_last_resort s key = elim (lookup key s.last_resort) [
  | none ↦ (s, none)
  | some lr ↦ (
    s,
    some (record {
      opk_id = lr.value.opk_id;
      public_key = lr.value.public_key;
      signature = lr.value.signature;
      last_resort = true;
    }),
  )
]

-- A queue with a first entry pops it for a token.
unfoldable pub claim_from : Store → Time → String → List Entry → Store × Option PrekeyEntry
unfolding take_token_locked serve_last_resort set_queue
claim_from s now key [] = serve_last_resort s key
claim_from s now key (claimed ∷ rest) =
    let (s', available) = take_token_locked s key now in
    if available then (set_queue key rest s', some claimed.value) else serve_last_resort s' key

unfoldable pub claim : Store → Time → String → String → Store × Option PrekeyEntry
unfolding bucket_key prune_locked claim_from
claim s now owner_tag device_key =
    let key = bucket_key (trim_space owner_tag) (trim_space device_key) in
    let s' = prune_locked now s in claim_from s' now key (get_or [] key s'.queues)

unfoldable pub status : Store → Time → String → String → Store × ℕ
unfolding bucket_key prune_locked
status s now owner_tag device_key =
    let key = bucket_key (trim_space owner_tag) (trim_space device_key) in
    let s' = prune_locked now s in (s', length (get_or [] key s'.queues))
