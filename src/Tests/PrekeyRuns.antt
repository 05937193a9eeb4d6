-- ===== src/Tests/PrekeyRuns.antt =====
-- The prekey store at concrete inputs: a pool of two, a claim, and a flood.
use dee_relay.Base.{
  ◌+◌, ◌-◌, ◌*◌, ◌≤◌, ◌≡◌, refl, none, some, true, false, [], ◌∷◌, List, String, pos, arith,
  trim_space, string_discrete, ℕ_discrete, is_empty, or_default, string_key,
}
use dee_relay.Map.{lookup, has, get_or, insert, remove}
use dee_relay.Model.{Time, PrekeyEntry, PrekeyPublish}
use dee_relay.Prekey.Pools.{
  Store, Limits, new_store_with_limits, bucket_key, prune_locked, set_queue,
}
use dee_relay.Prekey.Publish.{has_id, ids_of, publish}
use dee_relay.Prekey.Claim.{take_token_locked, claim}
use dee_relay.Prekey.Every.{Every}
use dee_relay.Prekey.Kinds.{IsPool}
use dee_relay.Prekey.Once.{ClaimOutcome, claim-ClaimOutcome, claim_once}
use dee_relay.Prekey.Bucket.{taken, attempts}
use dee_relay.Prekey.Rate.{taken_rate}
use dee_relay.Prekey.Run.{
  Call, publishes, claims, prunes, step, run, run-new_store_with_limits, run-Every,
}

-- One line for all that a run computes with.
prekey_code : Unit {0}
unfolding run step new_store_with_limits publish claim prune_locked take_token_locked bucket_key
    string_discrete ℕ_discrete trim_space is_empty or_default lookup has get_or insert remove has_id
    ids_of set_queue
prekey_code = tt

abbrev limits : Limits
limits = record {
  max_per_recipient = pos 2;
  max_buckets = pos 3;
  published_ttl = pos 1_000;
  claim_burst = pos 1;
  claim_refill = pos 10;
}

abbrev one_time : String → PrekeyEntry
one_time id = record { opk_id = id; public_key = "pk"; signature = "sig"; last_resort = false }

abbrev offer : PrekeyPublish
offer = record {
  device_key = "";
  entries = one_time "a" ∷ one_time " a " ∷ one_time "bb" ∷ one_time "ccc" ∷ [];
  last_resort = some (one_time "lr");
}

abbrev calls : List (Time × Call)
calls = (5, publishes "tag" offer) ∷ []

stocked : Store
stocked = run (new_store_with_limits limits) calls

-- The pool takes two ids and no duplicate; the second claim at once is throttled to the last resort.
added_two : (publish (new_store_with_limits limits) 5 "tag" offer).1 ≡ 2
unfolding prekey_code
added_two = refl

popped_first : (claim stocked 6 "tag" "").1 ≡ some (one_time "a")
unfolding stocked prekey_code
popped_first = refl

throttled :
    (claim (claim stocked 6 "tag" "").0 7 "tag" "").1
    ≡ some (record { opk_id = "lr"; public_key = "pk"; signature = "sig"; last_resort = true })
unfolding stocked prekey_code
throttled = refl

run-new_store_with_limits_example :
    IsPool 2
      (bucket_key "tag" "")
      (get_or [] (bucket_key "tag" "") (run (new_store_with_limits limits) calls).queues)
unfolding or_default ℕ_discrete
run-new_store_with_limits_example = run-new_store_with_limits limits calls (bucket_key "tag" "")

claim-ClaimOutcome_example :
    ClaimOutcome
      (prune_locked 6 stocked)
      6
      (bucket_key (trim_space "tag") (trim_space ""))
      (claim stocked 6 "tag" "")
claim-ClaimOutcome_example = claim-ClaimOutcome stocked 6 "tag" ""

abbrev refill_offer : PrekeyPublish
refill_offer = record { device_key = ""; entries = one_time " ab " ∷ []; last_resort = none }

abbrev later : List (Time × Call)
later = (30, claims "tag" "") ∷ (40, publishes "tag" refill_offer) ∷ (50, prunes) ∷ []

stocked-Every : Every (IsPool stocked.max_per_recipient) stocked
unfolding stocked prekey_code
stocked-Every = run-Every limits calls

claim_once_example :
    ((claim stocked 6 "tag" "").1 ≡ some (one_time "a"))
    × (has_id "a" (
          ids_of (
            get_or []
              (bucket_key (trim_space "tag") (trim_space ""))
              (run (claim stocked 6 "tag" "").0 later).queues))
        ≡ false)
unfolding stocked prekey_code
claim_once_example =
    claim_once stocked 6 "tag" "" (record { value = one_time "a"; published_at = 5 })
      (record { value = one_time "bb"; published_at = 5 } ∷ []) later stocked-Every refl refl
      (tt, (((λ e f. cc), tt), (tt, tt)))

abbrev flood : List Time
flood = 1 ∷ 2 ∷ 35 ∷ 20 ∷ 36 ∷ []

taken_rate_example :
    taken (attempts stocked "k" flood) "k" (900 ∷ 40 ∷ 41 ∷ []) * stocked.claim_refill
    ≤ stocked.claim_burst * stocked.claim_refill + (900 - 40)
unfolding stocked prekey_code
taken_rate_example =
    taken_rate stocked "k" flood (900 ∷ 40 ∷ 41 ∷ []) 40 900 refl (omega arith)
      ((omega arith, omega arith), ((omega arith, omega arith), ((omega arith, omega arith), tt)))
