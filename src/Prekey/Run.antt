-- ===== src/Prekey/Run.antt =====
-- The prekey store over any history of calls: every pool is within its cap and holds no id twice, and
-- what was claimed does not come back.
use dee_relay.Base.{
  subst, sym, ℕ, ◌≡◌, refl, Bool, List, [], ◌∷◌, String, string_key, arith, All, trim_space,
  if_both, or_default, ◌∙◌,
}
use dee_relay.Map.{lookup, get_or}
use dee_relay.Model.{Time, PrekeyEntry, PrekeyPublish}
use dee_relay.Prekey.Pools.{
  Store, Entry, Limits, bucket_key, new_store_with_limits, prune_locked, bucket_count,
  count_entries, last_resort_count,
}
use dee_relay.Prekey.Publish.{ids_of, trim_entry, publish}
use dee_relay.Prekey.Claim.{claim, status}
use dee_relay.Prekey.Caps.{cap-prune_locked, cap-fill_pool, cap-claim_from}
use dee_relay.Prekey.Every.{Robust, Every, prune_locked-Every, claim-Every}
use dee_relay.Prekey.Fill.{Appends, fill_pool-Every}
use dee_relay.Prekey.Kinds.{IsPool, Anything, IsPool-Robust, IsPool-Appends}

-- The calls of the handlers and of the pruning ticker.
pub data Call : Type 0 where
  publishes : String → PrekeyPublish → Call
  claims : String → String → Call
  asks : String → String → Call
  prunes : Call
  counts_buckets : Call
  counts_entries : Call
  counts_last_resorts : Call

unfoldable pub step : Store → Time × Call → Store
step s (now, publishes owner_tag value) = (publish s now owner_tag value).0
step s (now, claims owner_tag device_key) = (claim s now owner_tag device_key).0
step s (now, asks owner_tag device_key) = (status s now owner_tag device_key).0
step s (now, prunes) = prune_locked now s
step s (now, counts_buckets) = (bucket_count s now).0
step s (now, counts_entries) = (count_entries s now).0
step s (now, counts_last_resorts) = (last_resort_count s now).0

unfoldable pub run : Store → List (Time × Call) → Store
unfolding step
run s [] = s
run s (c ∷ cs) = run (step s c) cs

-- A call publishes entries of a kind only.
abbrev pub Offers : (String → PrekeyEntry → Type 0) → Time × Call → Type 0
Offers Kind (now, publishes owner_tag value) =
    All (λ e. Kind (bucket_key (trim_space owner_tag) (trim_space value.device_key)) (trim_entry e))
      value.entries
Offers Kind c = Unit

module _ (P : String → List Entry → Type 0) (Kind : String → PrekeyEntry → Type 0) (cap : ℕ)
    (robust : Robust P) (appends : Appends cap Kind P) where
  abbrev Keeps : Store → Type 0
  Keeps s = Every P s × (s.max_per_recipient ≡ cap)

  pruned : (now : Time) {s : Store} → Keeps s → Keeps (prune_locked now s)
  pruned now {s} (v, c) = (prune_locked-Every robust now v, cap-prune_locked now s ∙ c)

  publish-Keeps :
      (s : Store) (now : Time) (owner_tag : String) (value : PrekeyPublish)
      → Offers Kind (now, publishes owner_tag value)
      → Keeps s
      → Keeps (publish s now owner_tag value).0
  unfolding publish
  publish-Keeps s now owner_tag value kinds v =
      let key = bucket_key (trim_space owner_tag) (trim_space value.device_key) in
      let t = prune_locked now s in
      let u = pruned now v in
      if_both (λ (r : Store × ℕ × Bool). Keeps r.0) _ v
        (if_both (λ (r : Store × ℕ × Bool). Keeps r.0) _ u
          (
            fill_pool-Every P Kind cap robust appends t now key value u.1 kinds u.0,
            cap-fill_pool t now key value ∙ u.1,
          ))

  pub claim-Keeps :
      (s : Store) (now : Time) (owner_tag device_key : String)
      → Keeps s
      → Keeps (claim s now owner_tag device_key).0
  unfolding claim
  claim-Keeps s now owner_tag device_key v =
      let key = bucket_key (trim_space owner_tag) (trim_space device_key) in
      let t = prune_locked now s in
      (
        claim-Every robust now owner_tag device_key v.0,
        cap-claim_from t now key (get_or [] key t.queues) ∙ cap-prune_locked now s ∙ v.1,
      )

  step-Keeps : (s : Store) (c : Time × Call) → Offers Kind c → Keeps s → Keeps (step s c)
  unfolding step status bucket_count count_entries last_resort_count
  step-Keeps s (now, publishes owner_tag value) o v = publish-Keeps s now owner_tag value o v
  step-Keeps s (now, claims owner_tag device_key) o v = claim-Keeps s now owner_tag device_key v
  step-Keeps s (now, asks owner_tag device_key) o v = pruned now v
  step-Keeps s (now, prunes) o v = pruned now v
  step-Keeps s (now, counts_buckets) o v = pruned now v
  step-Keeps s (now, counts_entries) o v = pruned now v
  step-Keeps s (now, counts_last_resorts) o v = pruned now v

  pub run-Keeps :
      (s : Store) (cs : List (Time × Call)) → All (Offers Kind) cs → Keeps s → Keeps (run s cs)
  unfolding run
  run-Keeps s [] o v = v
  run-Keeps s (c ∷ cs) o v = run-Keeps (step s c) cs o.1 (step-Keeps s c o.0 v)

new_store-Keeps :
    (limits : Limits)
    → Every (IsPool (or_default 100 limits.max_per_recipient)) (new_store_with_limits limits)
unfolding new_store_with_limits get_or lookup ids_of
new_store-Keeps limits = record { distinct = tt; each = λ key. (tt, omega arith) }

any-Offers : (cs : List (Time × Call)) → All (Offers Anything) cs
any-Offers [] = tt
any-Offers ((now, publishes owner_tag value) ∷ cs) = (anything value.entries, any-Offers cs)
  where
    anything : (es : List PrekeyEntry) → All (λ e. Unit {0}) es
    anything [] = tt
    anything (e ∷ es) = (tt, anything es)
any-Offers ((now, claims owner_tag device_key) ∷ cs) = (tt, any-Offers cs)
any-Offers ((now, asks owner_tag device_key) ∷ cs) = (tt, any-Offers cs)
any-Offers ((now, prunes) ∷ cs) = (tt, any-Offers cs)
any-Offers ((now, counts_buckets) ∷ cs) = (tt, any-Offers cs)
any-Offers ((now, counts_entries) ∷ cs) = (tt, any-Offers cs)
any-Offers ((now, counts_last_resorts) ∷ cs) = (tt, any-Offers cs)

-- Each pool is within the store's own cap, without an id twice.
abbrev pub IsStocked : Store → Type 0
IsStocked s = Every (IsPool s.max_per_recipient) s

pub step-IsStocked : (s : Store) (c : Time × Call) → IsStocked s → IsStocked (step s c)
step-IsStocked s c v =
    let cap = s.max_per_recipient in
    let (kept, same) =
      step-Keeps (IsPool cap) Anything cap (IsPool-Robust cap) (IsPool-Appends cap) s c
        (any-Offers (c ∷ [])).0 (v, refl) in
    subst (λ n. Every (IsPool n) (step s c)) (sym same) kept

cap-new_store :
    (limits : Limits)
    → (new_store_with_limits limits).max_per_recipient ≡ or_default 100 limits.max_per_recipient
unfolding new_store_with_limits
cap-new_store limits = refl

pub run-Every :
    (limits : Limits) (cs : List (Time × Call))
    → Every
        (IsPool (or_default 100 limits.max_per_recipient))
        (run (new_store_with_limits limits) cs)
run-Every limits cs =
    let cap = or_default 100 limits.max_per_recipient in
    (run-Keeps (IsPool cap) Anything cap (IsPool-Robust cap) (IsPool-Appends cap)
      (new_store_with_limits limits) cs (any-Offers cs)
      (new_store-Keeps limits, cap-new_store limits)).0

-- From a new store, whatever its limits, every history of calls leaves every pool with no id twice and
-- with no more entries than the cap of a pool.
pub run-new_store_with_limits :
    (limits : Limits) (cs : List (Time × Call)) (key : String)
    → IsPool
        (or_default 100 limits.max_per_recipient)
        key
        (get_or [] key (run (new_store_with_limits limits) cs).queues)
run-new_store_with_limits limits cs key = (run-Every limits cs).each key
