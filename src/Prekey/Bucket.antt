-- ===== src/Prekey/Bucket.antt =====
-- takeTokenLocked: what one attempt on a bucket spends, and what a run of attempts takes of it.
use dee_relay.Base.{
  ℕ, ◌+◌, ◌-◌, ◌*◌, ◌≤◌, ◌≡◌, refl, Option, some, List, [], ◌∷◌, String, string_key, arith, All,
  if◌then◌else◌, leb, ◌∙◌, ap,
}
use dee_relay.Map.{lookup, lookup-insert}
use dee_relay.Map.Count.{one_if}
use dee_relay.Model.{Time}
use dee_relay.Prekey.Pools.{Store, BucketState}
use dee_relay.Prekey.Claim.{refilled, take_token_locked}

-- The tokens that a run of attempts on one bucket takes.
unfoldable pub taken : Store → String → List Time → ℕ
taken s key [] = 0
taken s key (now ∷ instants) =
    let rest = taken (take_token_locked s key now).0 key instants in
    one_if (take_token_locked s key now).1 + rest

-- The store after a run of attempts on one bucket.
unfoldable pub attempts : Store → String → List Time → Store
attempts s key [] = s
attempts s key (now ∷ instants) = attempts (take_token_locked s key now).0 key instants

-- The bucket after an attempt: what it spent and holds is what it held and gained since.
record Refill (s : Store) (key : String) (now : Time) (st : BucketState) : Type 0 where
  next : BucketState
  found : lookup key (take_token_locked s key now).0.tokens ≡ some next
  spent :
      one_if (take_token_locked s key now).1 * s.claim_refill + next.credit + st.last_refill
      ≤ st.credit + next.last_refill
  later : st.last_refill ≤ next.last_refill
  bounded : (bound : Time) → st.last_refill ≤ bound → now ≤ bound → next.last_refill ≤ bound
  same : (take_token_locked s key now).0.claim_refill ≡ s.claim_refill

-- The state that an attempt writes, from the refilled one.
abbrev pub after_take : BucketState → ℕ → BucketState
after_take st refill = record {
  credit = if leb refill st.credit then st.credit - refill else st.credit;
  last_refill = st.last_refill;
}

pub cost :
    (st : BucketState) (refill : ℕ)
    → one_if (leb refill st.credit) * refill + (after_take st refill).credit ≤ st.credit
cost st refill = ground arith

module _ (s : Store) (now : Time) (st : BucketState) where
  gain :
      (refilled s now (some st)).credit + st.last_refill
      ≤ st.credit + (refilled s now (some st)).last_refill
  unfolding refilled
  gain = ground arith

  onward : st.last_refill ≤ (refilled s now (some st)).last_refill
  unfolding refilled
  onward = ground arith

  capped :
      (bound : Time)
      → st.last_refill ≤ bound
      → now ≤ bound
      → (refilled s now (some st)).last_refill ≤ bound
  unfolding refilled
  capped bound h k = ground arith

pub found_take :
    (s : Store) (key : String) (now : Time)
    → lookup key (take_token_locked s key now).0.tokens
      ≡ some (after_take (refilled s now (lookup key s.tokens)) s.claim_refill)
unfolding take_token_locked
found_take s key now = ground (
  arith,
  lookup-insert key key (after_take (refilled s now (lookup key s.tokens)) s.claim_refill) s.tokens,
)

pub answer_take :
    (s : Store) (key : String) (now : Time) (o : Option BucketState)
    → lookup key s.tokens ≡ o
    → (take_token_locked s key now).1 ≡ leb s.claim_refill (refilled s now o).credit
unfolding take_token_locked
answer_take s key now o e = ap (λ p. leb s.claim_refill (refilled s now p).credit) e

pub refill_take :
    (s : Store) (key : String) (now : Time)
    → (take_token_locked s key now).0.claim_refill ≡ s.claim_refill
unfolding take_token_locked
refill_take s key now = refl

pub burst_take :
    (s : Store) (key : String) (now : Time)
    → (take_token_locked s key now).0.claim_burst ≡ s.claim_burst
unfolding take_token_locked
burst_take s key now = refl

attempt :
    (s : Store) (key : String) (now : Time) (st : BucketState)
    → lookup key s.tokens ≡ some st
    → Refill s key now st
attempt s key now st e =
    let x = refilled s now (some st) in
    record {
      next = after_take x s.claim_refill;
      found =
          found_take s key now ∙ ap (λ o. some (after_take (refilled s now o) s.claim_refill)) e;
      spent =
          rw (answer_take s key now (some st) e)
            (omega (arith, cost x s.claim_refill, gain s now st));
      later = onward s now st;
      bounded = capped s now st;
      same = refill_take s key now;
    }

step_sum :
    (a b refill refill' credit last credit₀ last₀ bound : ℕ)
    → refill' ≡ refill
    → a * refill + credit + last₀ ≤ credit₀ + last
    → b * refill' + last ≤ credit + bound
    → (a + b) * refill + last₀ ≤ credit₀ + bound
step_sum a b refill refill' credit last credit₀ last₀ bound e h k = grind arith

-- The tokens of a run against what the bucket held and gained.
pub taken_from :
    (s : Store) (key : String) (instants : List Time) (st : BucketState) (bound : Time)
    → lookup key s.tokens ≡ some st
    → st.last_refill ≤ bound
    → All (λ now. now ≤ bound) instants
    → taken s key instants * s.claim_refill + st.last_refill ≤ st.credit + bound
unfolding taken
taken_from s key [] st bound e h all = omega (arith, h)
taken_from s key (now ∷ instants) st bound e h all =
    let r = attempt s key now st e in
    let t = (take_token_locked s key now).0 in
    let rest = taken_from t key instants r.next bound r.found (r.bounded bound h all.0) all.1 in
    step_sum (one_if (take_token_locked s key now).1) (taken t key instants) s.claim_refill
      t.claim_refill r.next.credit r.next.last_refill st.credit st.last_refill bound r.same r.spent
      rest
