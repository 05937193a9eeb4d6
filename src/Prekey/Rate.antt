-- ===== src/Prekey/Rate.antt =====
-- takeTokenLocked: how many one-time prekeys of a bucket can be issued in a stretch of time.
use dee_relay.Base.{
  ℕ, ◌+◌, ◌-◌, ◌*◌, ◌≤◌, ◌≡◌, refl, Option, none, some, List, [], ◌∷◌, String, string_key, arith,
  All, ◌∙◌, subst, max,
}
use dee_relay.Map.{lookup}
use dee_relay.Map.Count.{one_if}
use dee_relay.Model.{Time}
use dee_relay.Prekey.Pools.{Store, BucketState}
use dee_relay.Prekey.Claim.{refilled, take_token_locked}
use dee_relay.Prekey.Bucket.{
  taken, attempts, after_take, cost, found_take, answer_take, refill_take, burst_take, taken_from,
}

-- A bucket holds no more than the burst.
abbrev IsWithin : Store → String → Type 0
IsWithin s key =
    (st : BucketState) → lookup key s.tokens ≡ some st → st.credit ≤ s.claim_burst * s.claim_refill

refilled_within :
    (s : Store) (now : Time) (o : Option BucketState)
    → ((st : BucketState) → o ≡ some st → st.credit ≤ s.claim_burst * s.claim_refill)
    → (refilled s now o).credit ≤ s.claim_burst * s.claim_refill
unfolding refilled
refilled_within s now none h = omega arith
refilled_within s now (some st) h = let k = h st refl in ground arith

-- The clock of a bucket is not behind the last attempt.
refilled_seen :
    (s : Store) (now : Time) (o : Option BucketState) → now ≤ (refilled s now o).last_refill
unfolding refilled
refilled_seen s now none = omega arith
refilled_seen s now (some st) = ground arith

-- What an attempt leaves, and what it spent, is within the burst.
record Spend (s : Store) (key : String) (now : Time) : Type 0 where
  next : BucketState
  found : lookup key (take_token_locked s key now).0.tokens ≡ some next
  capped :
      one_if (take_token_locked s key now).1 * s.claim_refill + next.credit
      ≤ s.claim_burst * s.claim_refill
  seen : now ≤ next.last_refill

take_token_locked-Spend : (s : Store) (key : String) (now : Time) → IsWithin s key → Spend s key now
take_token_locked-Spend s key now v =
    let x = refilled s now (lookup key s.tokens) in
    record {
      next = after_take x s.claim_refill;
      found = found_take s key now;
      capped =
          rw (answer_take s key now (lookup key s.tokens) refl)
            (omega (arith, cost x s.claim_refill, refilled_within s now (lookup key s.tokens) v));
      seen = refilled_seen s now (lookup key s.tokens);
    }

IsWithin-take :
    (s : Store) (key : String) (now : Time)
    → IsWithin s key
    → IsWithin (take_token_locked s key now).0 key
IsWithin-take s key now v st e =
    let r = take_token_locked-Spend s key now v in
    let same : r.next ≡ st = cc (r.found, e) in
    rw (refill_take s key now, burst_take s key now)
      (subst (λ (b : BucketState). b.credit ≤ s.claim_burst * s.claim_refill) same
        (omega (arith, r.capped)))

attempts-IsWithin :
    (s : Store) (key : String) (instants : List Time)
    → IsWithin s key
    → IsWithin (attempts s key instants) key
unfolding attempts
attempts-IsWithin s key [] v = v
attempts-IsWithin s key (now ∷ instants) v =
    attempts-IsWithin (take_token_locked s key now).0 key instants (IsWithin-take s key now v)

attempts-limits :
    (s : Store) (key : String) (instants : List Time)
    → ((attempts s key instants).claim_refill ≡ s.claim_refill)
      × ((attempts s key instants).claim_burst ≡ s.claim_burst)
unfolding attempts
attempts-limits s key [] = (refl, refl)
attempts-limits s key (now ∷ instants) =
    let (refill, burst) = attempts-limits (take_token_locked s key now).0 key instants in
    (refill ∙ refill_take s key now, burst ∙ burst_take s key now)

window_sum :
    (a b refill refill' credit last cap start bound : ℕ)
    → refill' ≡ refill
    → a * refill + credit ≤ cap
    → start ≤ last
    → start ≤ bound
    → b * refill' + last ≤ credit + max bound last
    → (a + b) * refill ≤ cap + (bound - start)
window_sum a b refill refill' credit last cap start bound e h k w rest = grind arith

All-weaken :
    (bound wider : ℕ) (instants : List Time)
    → bound ≤ wider
    → All (λ now. now ≤ bound) instants
    → All (λ now. now ≤ wider) instants
All-weaken bound wider [] h all = tt
All-weaken bound wider (now ∷ instants) h all =
    (omega (arith, h, all.0), All-weaken bound wider instants h all.1)

All-ends :
    (start bound : ℕ) (instants : List Time)
    → All (λ now. (start ≤ now) × (now ≤ bound)) instants
    → All (λ now. now ≤ bound) instants
All-ends start bound [] all = tt
All-ends start bound (now ∷ instants) all = (all.0.1, All-ends start bound instants all.1)

-- A bucket within its burst gives in a window the burst and the refill of the window at most.
taken_window :
    (s : Store) (key : String) (start bound : Time) (window : List Time)
    → IsWithin s key
    → start ≤ bound
    → All (λ now. (start ≤ now) × (now ≤ bound)) window
    → taken s key window * s.claim_refill ≤ s.claim_burst * s.claim_refill + (bound - start)
unfolding taken
taken_window s key start bound [] v h all = omega arith
taken_window s key start bound (now ∷ instants) v h all =
    let r = take_token_locked-Spend s key now v in
    let t = (take_token_locked s key now).0 in
    let far = max bound r.next.last_refill in
    let rest =
      taken_from t key instants r.next far r.found (omega arith)
        (All-weaken bound far instants (omega arith) (All-ends start bound instants all.1)) in
    window_sum (one_if (take_token_locked s key now).1) (taken t key instants) s.claim_refill
      t.claim_refill r.next.credit r.next.last_refill (s.claim_burst * s.claim_refill) start bound
      (refill_take s key now) r.capped (omega (arith, r.seen, all.0.0)) h rest

-- A bucket that held no state, after any attempts at any readings of the clock, gives in attempts at
-- readings within a window of time at most as many tokens as the burst and the refill of the length of the window:
-- however long it stood idle, it saves up no more than the burst. The attempts follow each other with no prune between them
-- that drops the bucket's state, and tokens are exact, each worth the time that refills one.
pub taken_rate :
    (s : Store) (key : String) (before window : List Time) (start bound : Time)
    → lookup key s.tokens ≡ none
    → start ≤ bound
    → All (λ now. (start ≤ now) × (now ≤ bound)) window
    → taken (attempts s key before) key window * s.claim_refill
      ≤ s.claim_burst * s.claim_refill + (bound - start)
taken_rate s key before window start bound e h all =
    let (refill, burst) = attempts-limits s key before in
    let within = attempts-IsWithin s key before (λ st f. absurd (cc (e, f))) in
    let r = taken_window (attempts s key before) key start bound window within h all in
    subst (λ n. taken (attempts s key before) key window * n ≤ s.claim_burst * n + (bound - start))
      refill
      (subst
        (λ n.
          taken (attempts s key before) key window * (attempts s key before).claim_refill
          ≤ n * (attempts s key before).claim_refill + (bound - start))
        burst r)
