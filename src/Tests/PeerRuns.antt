-- ===== src/Tests/PeerRuns.antt =====
-- The roster of peers at concrete inputs: a peer that never answered hides one that does.
use dee_relay.Base.{
  ◌≡◌, ◌≢◌, ◌↔◌, refl, some, [], ◌∷◌, List, String, In, negsuc, string_discrete, ℕ_discrete,
  is_empty,
}
use dee_relay.Map.{lookup, has, get_or, insert}
use dee_relay.Model.{Time, zero_time, is_zero}
use dee_relay.Peer.Pool.{Pool, new_pool, targets, record_success, record_failure, health}
use dee_relay.Peer.Roster.{Call, succeeds, fails, step, run, IsRoster}
use dee_relay.Peer.Configured.{run-new_pool}
use dee_relay.Peer.Healths.{HealthOutcome, health-HealthOutcome}

abbrev urls : List String
urls = "http://a" ∷ "" ∷ "http://b" ∷ "http://a" ∷ []

abbrev syncs : List (Time × Call)
syncs =
    (7, fails "http://a" (some "refused"))
    ∷ (9, succeeds "http://b" "n2")
    ∷ (9, succeeds "http://c" "n3")
    ∷ []

pool : Pool
pool = run (new_pool "n1" urls) syncs

two_targets : targets pool ≡ "http://a" ∷ "http://b" ∷ []
unfolding pool run step new_pool targets record_success record_failure string_discrete ℕ_discrete
    is_empty lookup has insert
two_targets = refl

hidden_peer : health pool 20 ≡ record { peers = 2; reachable = 0; oldest_sync_age_sec = negsuc 0 }
unfolding pool run step new_pool record_success record_failure health string_discrete ℕ_discrete
    is_empty lookup has insert get_or zero_time is_zero
hidden_peer = refl

run-new_pool_example :
    IsRoster (run (new_pool "n1" urls) syncs)
    × (targets (run (new_pool "n1" urls) syncs) ≡ targets (new_pool "n1" urls))
    × ((url : String)
        → In url (targets (run (new_pool "n1" urls) syncs)) ↔ (In url urls × (url ≢ "")))
run-new_pool_example = run-new_pool "n1" urls syncs

health-HealthOutcome_example : HealthOutcome pool 20 (health pool 20)
health-HealthOutcome_example = health-HealthOutcome pool 20
