-- ===== src/Prekey/Once.antt =====
-- Claim: what it answers and what it leaves, that a one-time prekey is issued once, and the rate that
-- the token bucket allows.
use dee_relay.Base.{
  ℕ, ◌≡◌, ◌⊎◌, ◌==◌, refl, inl, inr, Bool, true, false, Option, none, some, List, [], ◌∷◌, String,
  string_key, arith, All, trim_space, if◌then◌else◌, Bool-cases, subst,
}
use dee_relay.Map.{lookup, get_or}
use dee_relay.Model.{Time, PrekeyEntry}
use dee_relay.Prekey.Pools.{Store, Entry, bucket_key, prune_locked, set_queue}
use dee_relay.Prekey.Publish.{has_id, ids_of}
use dee_relay.Prekey.Claim.{take_token_locked, serve_last_resort, claim_from, claim}
use dee_relay.Prekey.Every.{Every, get_or-set_queue, prune_locked-Every}
use dee_relay.Prekey.Kinds.{
  IsPool-Robust, IsPool-Appends, Anything, IsPool, Lacks, IsOther, Lacks-Robust, Lacks-Appends,
}
use dee_relay.Prekey.Run.{Call, Offers, run, run-Keeps, claim-Keeps}

-- The last-resort prekey of a key, flagged as one.
abbrev pub reserve : Store → String → Option PrekeyEntry
reserve s key = elim (lookup key s.last_resort) [
  | none ↦ none
  | some lr ↦ some (record {
    opk_id = lr.value.opk_id;
    public_key = lr.value.public_key;
    signature = lr.value.signature;
    last_resort = true;
  })
]

-- A token and an entry: the first entry is answered and gone. Otherwise the last resort is answered,
-- and the pools stand.
abbrev pub ClaimOutcome : Store → Time → String → Store × Option PrekeyEntry → Type 0
ClaimOutcome t now key r =
    ((item : Entry) × (rest : List Entry) × (get_or [] key t.queues ≡ item ∷ rest)
      × ((take_token_locked t key now).1 ≡ true)
      × (r.1 ≡ some item.value)
      × ((j : String) → get_or [] j r.0.queues ≡ (if key == j then rest else get_or [] j t.queues)))
    ⊎ (((get_or [] key t.queues ≡ []) ⊎ ((take_token_locked t key now).1 ≡ false))
        × (r.1 ≡ reserve t key)
        × (r.0.queues ≡ t.queues))

served :
    (s : Store) (key : String)
    → ((serve_last_resort s key).1 ≡ reserve s key)
      × ((serve_last_resort s key).0.queues ≡ s.queues)
unfolding serve_last_resort
served s key = (ground arith, ground arith)

claim_from_taken :
    (t : Store) (now : Time) (key : String) (item : Entry) (rest : List Entry) (b : Bool)
    → (take_token_locked t key now).1 ≡ b
    → claim_from t now key (item ∷ rest) ≡ (
        if b
        then (set_queue key rest (take_token_locked t key now).0, some item.value)
        else serve_last_resort (take_token_locked t key now).0 key)
unfolding claim_from
claim_from_taken t now key item rest b e =
    subst
      (λ (c : Bool). claim_from t now key (item ∷ rest) ≡ (
        if c
        then (set_queue key rest (take_token_locked t key now).0, some item.value)
        else serve_last_resort (take_token_locked t key now).0 key))
      e refl

claim_from-ClaimOutcome :
    (t : Store) (now : Time) (key : String) (queue : List Entry)
    → get_or [] key t.queues ≡ queue
    → ClaimOutcome t now key (claim_from t now key queue)
unfolding claim_from
claim_from-ClaimOutcome t now key [] e = inr (inl e, (served t key).0, (served t key).1)
claim_from-ClaimOutcome t now key (item ∷ rest) e =
    elim (Bool-cases (take_token_locked t key now).1) [
      | inl yes_token ↦ rw (claim_from_taken t now key item rest true yes_token) (
          inl (
            item,
            rest,
            e,
            yes_token,
            refl,
            λ j. get_or-set_queue key j rest (take_token_locked t key now).0,
          ))
      | inr no_token ↦ rw (claim_from_taken t now key item rest false no_token) (
          let u = (take_token_locked t key now).0 in
          inr (inr no_token, (served u key).0, (served u key).1))
    ]

-- A claim on a bucket, on the pruned store: with an entry and a token it answers the first entry, and
-- the pool has lost that one and no other; otherwise it answers the last-resort prekey, flagged, where
-- there is one, and leaves the pools alone.
pub claim-ClaimOutcome :
    (s : Store) (now : Time) (owner_tag device_key : String)
    → ClaimOutcome
        (prune_locked now s)
        now
        (bucket_key (trim_space owner_tag) (trim_space device_key))
        (claim s now owner_tag device_key)
unfolding claim
claim-ClaimOutcome s now owner_tag device_key =
    let key = bucket_key (trim_space owner_tag) (trim_space device_key) in
    let t = prune_locked now s in claim_from-ClaimOutcome t now key (get_or [] key t.queues) refl

-- The pool that a one-time entry was popped from no longer holds its id.
popped :
    (cap : ℕ) (t : Store) (now : Time) (key : String) (item : Entry) (rest : List Entry)
    (r : Store × Option PrekeyEntry)
    → Every (IsPool cap) t
    → get_or [] key t.queues ≡ item ∷ rest
    → (take_token_locked t key now).1 ≡ true
    → ClaimOutcome t now key r
    → (r.1 ≡ some item.value)
      × ((j : String) → Lacks key item.value.opk_id j (get_or [] j r.0.queues))
unfolding ids_of
popped cap t now key item rest r v e token (inl (it, re, e', _, answer, after)) =
    let same : item ≡ it = cc in
    let same_rest : re ≡ rest = cc in
    let pool : IsPool cap key (item ∷ rest) = subst (IsPool cap key) e (v.each key) in
    let left : (j : String) → j ≡ key → get_or [] j r.0.queues ≡ rest =
      λ j at. ground (arith, after j, same_rest, at) in
    (rw same answer, λ j at. rw (left j at) pool.0.0)
popped cap t now key item rest r v e token (inr (inl none_left, _, _)) = absurd (cc)
popped cap t now key item rest r v e token (inr (inr no_token, _, _)) = absurd (cc)

-- A one-time entry is issued once. In a store where no pool is over the cap or holds an id twice, a
-- claim that finds an entry and a token answers the first entry, and after it no history of calls in
-- which nobody publishes that id to the bucket again puts the id back into the pool, whatever else is
-- published, claimed and pruned.
pub claim_once :
    (s : Store) (now : Time) (owner_tag device_key : String) (item : Entry) (rest : List Entry)
    (cs : List (Time × Call))
    → Every (IsPool s.max_per_recipient) s
    → get_or []
        (bucket_key (trim_space owner_tag) (trim_space device_key))
        (prune_locked now s).queues
      ≡ item ∷ rest
    → (take_token_locked
        (prune_locked now s)
        (bucket_key (trim_space owner_tag) (trim_space device_key))
        now).1
      ≡ true
    → All
        (Offers
          (IsOther (bucket_key (trim_space owner_tag) (trim_space device_key)) item.value.opk_id))
        cs
    → ((claim s now owner_tag device_key).1 ≡ some item.value)
      × (has_id item.value.opk_id (
            ids_of (
              get_or []
                (bucket_key (trim_space owner_tag) (trim_space device_key))
                (run (claim s now owner_tag device_key).0 cs).queues))
          ≡ false)
claim_once s now owner_tag device_key item rest cs v e token offers =
    let cap = s.max_per_recipient in
    let key = bucket_key (trim_space owner_tag) (trim_space device_key) in
    let t = prune_locked now s in
    let i = item.value.opk_id in
    let u = (claim s now owner_tag device_key).0 in
    let (answer, gone) =
      popped cap t now key item rest (claim s now owner_tag device_key)
        (prune_locked-Every (IsPool-Robust cap) now v) e token
        (claim-ClaimOutcome s now owner_tag device_key) in
    let kept =
      (claim-Keeps (IsPool cap) Anything cap (IsPool-Robust cap) (IsPool-Appends cap) s now
        owner_tag device_key (v, refl)) in
    (
      answer,
      (run-Keeps (Lacks key i) (IsOther key i) cap (Lacks-Robust key i) (Lacks-Appends cap key i) u
            cs offers (record { distinct = kept.0.distinct; each = gone }, kept.1)).0.each
          key refl,
    )
