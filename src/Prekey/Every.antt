-- ===== src/Prekey/Every.antt =====
-- A property of every pool, which every operation keeps if it survives the loss of entries.
use dee_relay.Base.{
  ◌≡◌, ◌==◌, refl, Bool, Option, none, List, [], ◌∷◌, String, string_key, arith, if◌then◌else◌,
  if_both, subst, string_discrete, trim_space,
}
use dee_relay.Map.{
  Map, lookup, get_or, remove, lookup-insert, lookup-remove, Distinct, Distinct-insert,
  Distinct-remove,
}
use dee_relay.Model.{Time, PrekeyEntry}
use dee_relay.Prekey.Pools.{
  Store, Entry, BucketState, kept_of, is_kept, set_queue, prune_queues, prune_last_resort,
  prune_tokens, prune_locked, bucket_key,
}
use dee_relay.Prekey.Claim.{take_token_locked, serve_last_resort, claim_from, claim}

pub get_or-set_queue :
    (key j : String) (queue : List Entry) (s : Store)
    → get_or [] j (set_queue key queue s).queues
      ≡ (if key == j then queue else get_or [] j s.queues)
unfolding set_queue get_or
get_or-set_queue key j [] s = ground (arith, lookup-remove key j s.queues)
get_or-set_queue key j (item ∷ queue) s =
    ground (arith, lookup-insert key j (item ∷ queue) s.queues)

-- The two later loops of the prune leave the queues alone.
queues-prune_last_resort :
    (now : Time) (m : Map String Entry) (s : Store) → (prune_last_resort now m s).queues ≡ s.queues
unfolding prune_last_resort
queues-prune_last_resort now [] s = refl
queues-prune_last_resort now ((key, item) ∷ m) s = ground (
  arith,
  queues-prune_last_resort now m s,
  queues-prune_last_resort now m (record s { last_resort = remove key s.last_resort }),
)

queues-prune_tokens :
    (m : Map String BucketState) (s : Store) → (prune_tokens m s).queues ≡ s.queues
unfolding prune_tokens
queues-prune_tokens [] s = refl
queues-prune_tokens ((key, state) ∷ m) s = ground (
  arith,
  queues-prune_tokens m s,
  queues-prune_tokens m (record s { tokens = remove key s.tokens }),
)

-- A property of a pool, under the key of its bucket, that holds of the empty pool and survives the
-- loss of the first entry and of any entries.
pub record Robust (P : String → List Entry → Type 0) : Type 0 where
  pub empty : (key : String) → P key []
  pub tail : (key : String) (item : Entry) (queue : List Entry) → P key (item ∷ queue) → P key queue
  pub sieved :
      (key : String) (p : Entry → Bool) (queue : List Entry) → P key queue → P key (kept_of p queue)

-- No key has two queues, and the property holds of every pool.
pub record Every (P : String → List Entry → Type 0) (s : Store) : Type 0 where
  pub distinct : Distinct s.queues
  pub each : (key : String) → P key (get_or [] key s.queues)

module _ {P : String → List Entry → Type 0} (robust : Robust P) where
  abbrev Listed : Map String (List Entry) → Type 0
  Listed [] = Unit
  Listed ((key, queue) ∷ m) = P key queue × Listed m

  listed_head :
      (key : String) (queue : List Entry) (m : Map String (List Entry))
      → P key (get_or [] key ((key, queue) ∷ m))
      → P key queue
  unfolding get_or lookup
  listed_head key queue m h = subst (P key) (ground arith) h

  listed_tail :
      (key : String) (queue : List Entry) (m : Map String (List Entry))
      → lookup key m ≡ none
      → ((j : String) → P j (get_or [] j ((key, queue) ∷ m)))
      → (j : String) → P j (get_or [] j m)
  unfolding get_or lookup
  listed_tail key queue m new h j = elim (string_discrete key j) [
    | yes p ↦ subst (P j) (ground arith) (robust.empty j)
    | no p ↦ subst (P j) (ground arith) (h j)
  ]

  listed :
      (m : Map String (List Entry))
      → Distinct m
      → ((key : String) → P key (get_or [] key m))
      → Listed m
  listed [] d h = tt
  listed ((key, queue) ∷ m) d h =
      (listed_head key queue m (h key), listed m d.1 (listed_tail key queue m d.0 h))

  each-set_queue :
      (s : Store) (key : String) (queue : List Entry)
      → P key queue
      → ((j : String) → P j (get_or [] j s.queues))
      → (j : String) → P j (get_or [] j (set_queue key queue s).queues)
  each-set_queue s key queue q h j = elim (string_discrete key j) [
    | yes p ↦
        subst (P j) (ground (arith, get_or-set_queue key j queue s)) (subst (λ k. P k queue) p q)
    | no p ↦ subst (P j) (ground (arith, get_or-set_queue key j queue s)) (h j)
  ]

  set_queue-Every :
      {s : Store} (key : String) (queue : List Entry)
      → P key queue
      → Every P s
      → Every P (set_queue key queue s)
  unfolding set_queue
  set_queue-Every {s} key queue q v = record {
    distinct =
        ground
          (arith, v.distinct, Distinct-insert key queue s.queues, Distinct-remove key s.queues);
    each = each-set_queue s key queue q v.each;
  }

  prune_queues-Every :
      (now : Time) (m : Map String (List Entry)) (s : Store)
      → Listed m
      → Every P s
      → Every P (prune_queues now m s)
  unfolding prune_queues
  prune_queues-Every now [] s l v = v
  prune_queues-Every now ((key, queue) ∷ m) s l v =
      prune_queues-Every now m (set_queue key (kept_of (is_kept s now) queue) s) l.1 (
        set_queue-Every key (kept_of (is_kept s now) queue)
          (robust.sieved key (is_kept s now) queue l.0) v)

  pub same_queues : (s t : Store) → t.queues ≡ s.queues → Every P s → Every P t
  same_queues s t e v = record { distinct = rw e v.distinct; each = λ j. rw e (v.each j) }

  pub prune_locked-Every : (now : Time) {s : Store} → Every P s → Every P (prune_locked now s)
  unfolding prune_locked
  prune_locked-Every now {s} v =
      let s₁ = prune_queues now s.queues s in
      let s₂ = prune_last_resort now s₁.last_resort s₁ in
      same_queues s₂ (prune_tokens s₂.tokens s₂) (queues-prune_tokens s₂.tokens s₂) (
        same_queues s₁ s₂ (queues-prune_last_resort now s₁.last_resort s₁)
          (prune_queues-Every now s.queues s (listed s.queues v.distinct v.each) v))

  queues-take_token_locked :
      (s : Store) (key : String) (now : Time) → (take_token_locked s key now).0.queues ≡ s.queues
  unfolding take_token_locked
  queues-take_token_locked s key now = refl

  store-serve_last_resort : (s : Store) (key : String) → (serve_last_resort s key).0 ≡ s
  unfolding serve_last_resort
  store-serve_last_resort s key = ground arith

  claim_from-Every :
      {s : Store} (now : Time) (key : String) (queue : List Entry)
      → P key queue
      → Every P s
      → Every P (claim_from s now key queue).0
  unfolding claim_from
  claim_from-Every {s} now key [] q v = rw (store-serve_last_resort s key) v
  claim_from-Every {s} now key (item ∷ rest) q v =
      let t = (take_token_locked s key now).0 in
      let u = same_queues s t refl v in
      if_both (λ (r : Store × Option PrekeyEntry). Every P r.0) (take_token_locked s key now).1
        (set_queue-Every key rest (robust.tail key item rest q) u)
        (rw (store-serve_last_resort t key) u)

  pub claim-Every :
      {s : Store} (now : Time) (owner_tag device_key : String)
      → Every P s
      → Every P (claim s now owner_tag device_key).0
  unfolding claim
  claim-Every {s} now owner_tag device_key v =
      let key = bucket_key (trim_space owner_tag) (trim_space device_key) in
      let u = prune_locked-Every now v in
      claim_from-Every now key (get_or [] key (prune_locked now s).queues) (u.each key) u
