-- ===== src/Prekey/Caps.antt =====
-- internal/prekey/store.go: the cap of a pool is fixed when the store is made.
use dee_relay.Base.{
  ℕ, ◌+◌, ◌≡◌, refl, Option, none, some, List, [], ◌∷◌, String, string_key, arith, trim_space,
  if_both, ◌∙◌,
}
use dee_relay.Map.{Map, get_or, remove}
use dee_relay.Model.{Time, PrekeyEntry, PrekeyPublish}
use dee_relay.Prekey.Pools.{
  Store, Entry, BucketState, kept_of, is_kept, set_queue, prune_queues, prune_last_resort,
  prune_tokens, prune_locked,
}
use dee_relay.Prekey.Publish.{
  ids_of, trim_entry, append_entry, add_entries, put_last_resort, fill_pool,
}
use dee_relay.Prekey.Claim.{take_token_locked, serve_last_resort, claim_from}

-- No operation changes the cap of a pool.
cap-prune_queues :
    (now : Time) (m : Map String (List Entry)) (s : Store)
    → (prune_queues now m s).max_per_recipient ≡ s.max_per_recipient
unfolding prune_queues set_queue
cap-prune_queues now [] s = refl
cap-prune_queues now ((key, queue) ∷ m) s =
    cap-prune_queues now m (set_queue key (kept_of (is_kept s now) queue) s)

cap-prune_last_resort :
    (now : Time) (m : Map String Entry) (s : Store)
    → (prune_last_resort now m s).max_per_recipient ≡ s.max_per_recipient
unfolding prune_last_resort
cap-prune_last_resort now [] s = refl
cap-prune_last_resort now ((key, item) ∷ m) s = ground (
  arith,
  cap-prune_last_resort now m s,
  cap-prune_last_resort now m (record s { last_resort = remove key s.last_resort }),
)

cap-prune_tokens :
    (m : Map String BucketState) (s : Store)
    → (prune_tokens m s).max_per_recipient ≡ s.max_per_recipient
unfolding prune_tokens
cap-prune_tokens [] s = refl
cap-prune_tokens ((key, state) ∷ m) s =
    ground
      (arith, cap-prune_tokens m s, cap-prune_tokens m (record s { tokens = remove key s.tokens }))

pub cap-prune_locked :
    (now : Time) (s : Store) → (prune_locked now s).max_per_recipient ≡ s.max_per_recipient
unfolding prune_locked
cap-prune_locked now s =
    let s₁ = prune_queues now s.queues s in
    let s₂ = prune_last_resort now s₁.last_resort s₁ in
    cap-prune_tokens s₂.tokens s₂
    ∙ cap-prune_last_resort now s₁.last_resort s₁
    ∙ cap-prune_queues now s.queues s

cap-add_entries :
    (key : String) (now : Time) (candidates : List PrekeyEntry) (s : Store) (existing : List String)
    (added : ℕ)
    → (add_entries key now candidates (s, existing, added)).0.max_per_recipient
      ≡ s.max_per_recipient
unfolding add_entries append_entry
cap-add_entries key now [] s existing added = refl
cap-add_entries key now (e ∷ candidates) s existing added = ground (
  arith,
  cap-add_entries key now candidates s existing added,
  cap-add_entries key now candidates (append_entry key now (trim_entry e) s)
      (trim_space e.opk_id ∷ existing) (added + 1),
)

pub cap-fill_pool :
    (s : Store) (now : Time) (key : String) (value : PrekeyPublish)
    → (fill_pool s now key value).0.max_per_recipient ≡ s.max_per_recipient
unfolding fill_pool
cap-fill_pool s now key value =
    let start = ids_of (get_or [] key s.queues) in
    let t = (add_entries key now value.entries (s, start, 0)).0 in
    cap-put_last_resort key now value.last_resort t
    ∙ cap-add_entries key now value.entries s start 0
  where
    cap-put_last_resort :
        (key : String) (now : Time) (o : Option PrekeyEntry) (s : Store)
        → (put_last_resort key now o s).max_per_recipient ≡ s.max_per_recipient
    cap-put_last_resort key now none s = refl
    cap-put_last_resort key now (some e) s = ground arith

cap-serve_last_resort :
    (s : Store) (key : String) → (serve_last_resort s key).0.max_per_recipient ≡ s.max_per_recipient
unfolding serve_last_resort
cap-serve_last_resort s key = ground arith

pub cap-claim_from :
    (s : Store) (now : Time) (key : String) (queue : List Entry)
    → (claim_from s now key queue).0.max_per_recipient ≡ s.max_per_recipient
unfolding claim_from serve_last_resort set_queue take_token_locked
cap-claim_from s now key [] = cap-serve_last_resort s key
cap-claim_from s now key (item ∷ queue) =
    if_both (λ (r : Store × Option PrekeyEntry). r.0.max_per_recipient ≡ s.max_per_recipient)
      (take_token_locked s key now).1 refl
      (cap-serve_last_resort (take_token_locked s key now).0 key)
