-- ===== src/Peer/Pool.antt =====
-- internal/peer/pool.go: the roster, the outcome of the last sync with each peer, and the summary for
-- /health. The relay's own url (internal/peer/selfurl.go) is not part of the model.
use dee_relay.Base.{
  ℕ, ◌+◌, ◌-◌, ◌/◌, ◌==◌, ◌&&◌, ◌||◌, Bool, not, Option, none, some, List, [], ◌∷◌, ◌++◌, String,
  string_key, nat_key, if◌then◌else◌, ltb, is_empty, length, map, ℤ, pos, negsuc,
}
use dee_relay.Map.{Map, lookup, get_or, has, insert}
use dee_relay.Model.{Time, zero_time, is_zero}

pub record Status : Type 0 where
  pub url : String
  pub claimed_id : String
  pub last_success_at : Time
  pub last_attempt_at : Time
  pub last_error : String
  pub consecutive_failures : ℕ

pub record Pool : Type 0 where
  pub self_id : String
  pub peers : List String
  pub status : Map String Status

pub record Health : Type 0 where
  pub peers : ℕ
  pub reachable : ℕ
  pub oldest_sync_age_sec : ℤ

unfoldable pub fresh_status : String → Status
unfolding zero_time
fresh_status url = record {
  url = url;
  claimed_id = "";
  last_success_at = zero_time;
  last_attempt_at = zero_time;
  last_error = "";
  consecutive_failures = 0;
}

unfoldable pub add_peers : List String → Pool → Pool
unfolding fresh_status
add_peers [] p = p
add_peers (url ∷ urls) p = add_peers urls (
    if is_empty url || has url p.status then p else record p {
      peers = p.peers ++ (url ∷ []);
      status = insert url (fresh_status url) p.status;
    })

unfoldable pub new_pool : String → List String → Pool
unfolding add_peers
new_pool self_id urls = add_peers urls (record { self_id = self_id; peers = []; status = [] })

unfoldable pub targets : Pool → List String
targets p = p.peers

unfoldable pub record_success : Pool → String → String → Time → Pool
record_success p url claimed_id now = elim (lookup url p.status) [
  | none ↦ p
  | some st ↦ record p {
    status =
        insert url
          (record st {
            claimed_id = claimed_id;
            last_attempt_at = now;
            last_success_at = now;
            last_error = "";
            consecutive_failures = 0;
          })
          p.status;
  }
]

-- The text of an error, where there is one.
unfoldable pub record_failure : Pool → String → Option String → Time → Pool
record_failure p url error now = elim (lookup url p.status) [
  | none ↦ p
  | some st ↦ record p {
    status =
        insert url
          (record st {
            last_attempt_at = now;
            last_error = elim error [ none ↦ st.last_error | some text ↦ text ];
            consecutive_failures = st.consecutive_failures + 1;
          })
          p.status;
  }
]

unfoldable pub is_reachable : Status → Bool
unfolding is_zero
is_reachable st = st.consecutive_failures == 0 && not (is_zero st.last_success_at)

-- Whole seconds, and none where the clock stepped back.
unfoldable pub age_of : Time → Status → ℕ
age_of now st = (now - st.last_success_at) / 1_000_000_000

-- `if age > oldest { oldest = age }`
unfoldable pub older : ℕ → ℤ → ℤ
older age (pos oldest) = if ltb oldest age then pos age else pos oldest
older age (negsuc n) = pos age

-- The loop of `Health`, which ends at the first peer that never synced.
unfoldable pub scan : Pool → Time → List String → ℕ → ℤ → ℕ × ℤ
unfolding is_zero is_reachable age_of older fresh_status
scan p now [] reachable oldest = (reachable, oldest)
scan p now (url ∷ urls) reachable oldest =
    let st = get_or (fresh_status url) url p.status in
    let counted = (if is_reachable st then reachable + 1 else reachable) in
    let rest = scan p now urls counted (older (age_of now st) oldest) in
    if is_zero st.last_success_at then (counted, negsuc 0) else rest

unfoldable pub health : Pool → Time → Health
unfolding scan
health p now =
    let (reachable, oldest) = scan p now p.peers 0 (negsuc 0) in
    record { peers = length p.peers; reachable = reachable; oldest_sync_age_sec = oldest }

unfoldable pub statuses : Pool → List Status
unfolding fresh_status
statuses p = map (λ url. get_or (fresh_status url) url p.status) p.peers
