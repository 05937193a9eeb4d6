-- ===== src/Tests/PresenceRuns.antt =====
-- The presence store at concrete inputs: a full table, an offline lease, a revocation.
use dee_relay.Base.{
  ◌≡◌, ◌≤◌, ◌+◌, ◌≢◌, ◌==◌, string_key, refl, some, true, false, [], ◌∷◌, List, String, pos, arith,
  trim_space, string_discrete, ℕ_discrete, is_empty, or_default,
}
use dee_relay.Map.{lookup, has, get_or, insert, remove}
use dee_relay.Map.Counter.{bump, drop_one}
use dee_relay.Map.Count.{count}
use dee_relay.Model.{Time, zero_time, is_zero, PresenceHeartbeat}
use dee_relay.Presence.Table.{
  Store, Record, new_store, put_locked, drop_locked, prune_locked, prune,
}
use dee_relay.Presence.Beats.{heartbeat_with_grant, trim_beat}
use dee_relay.Presence.Lists.{query}
use dee_relay.Presence.Revoke.{revoke}
use dee_relay.Presence.Invariant.{InStep}
use dee_relay.Presence.Drops.{IsRevoked, revoke-IsRevoked}
use dee_relay.Presence.Leases.{
  BeatOutcome, heartbeat_with_grant-BeatOutcome, heartbeat_with_grant_keeps,
}
use dee_relay.Presence.Run.{Call, beats, step, run, run-new_store-InStep}

-- One line for all that a run computes with.
presence_code : Unit {0}
unfolding run step new_store heartbeat_with_grant put_locked prune_locked prune string_discrete
    ℕ_discrete trim_space is_empty or_default lookup has get_or insert remove bump drop_one
    zero_time is_zero query count drop_locked
presence_code = tt

abbrev beat : String → String → Time → PresenceHeartbeat
beat owner grant expiry = record {
  owner_hash = owner;
  grant_hash = grant;
  updated_at = zero_time;
  expires_at = expiry;
}

abbrev calls : List (Time × Call)
calls =
    (10, beats (beat "ann" " g1 " 100) (record { caller = "tag:ann" }))
    ∷ (20, beats (beat "bob" "g2" 1_000) (record { caller = "tag:bob" }))
    ∷ []

full : Store
full = run (new_store (pos 2) (pos 5_000)) calls

full-InStep : InStep full
unfolding full
full-InStep = run-new_store-InStep (pos 2) (pos 5_000) calls

-- While both leases are online a third is refused, and later it takes the place of the offline one.
refused_beat :
    (heartbeat_with_grant full 50 (beat "cat" "g3" 500) (record { caller = "" })).1 ≡ false
unfolding full presence_code
refused_beat = refl

taken_slot :
    (query
      (heartbeat_with_grant full 200 (beat "cat" "g3" 500) (record { caller = "" })).0
      210
      ("g1" ∷ "g2" ∷ "g3" ∷ [])).1
    ≡ record { grant_hash = "g2"; online = true; last_seen = 20 }
      ∷ record { grant_hash = "g3"; online = true; last_seen = 200 }
      ∷ []
unfolding full presence_code
taken_slot = refl

run-new_store-InStep_example : InStep (run (new_store (pos 2) (pos 5_000)) calls)
run-new_store-InStep_example = run-new_store-InStep (pos 2) (pos 5_000) calls

heartbeat_with_grant-BeatOutcome_example :
    BeatOutcome full 200
      (trim_space "tag:cat")
      (trim_beat 200 (beat "cat" "g3" 500))
      (heartbeat_with_grant full 200 (beat "cat" "g3" 500) (record { caller = "tag:cat" }))
heartbeat_with_grant-BeatOutcome_example =
    heartbeat_with_grant-BeatOutcome full 200 (beat "cat" "g3" 500) (record { caller = "tag:cat" })
      full-InStep

abbrev bob_lease : Record
bob_lease = record {
  owner_hash = "bob";
  grant_hash = "g2";
  caller = "tag:bob";
  last_seen = 20;
  updated_at = 20;
  expires_at = 1_000;
}

held_lease : lookup "g2" full.records ≡ some bob_lease
unfolding full presence_code
held_lease = refl

small_share : count (λ (item : Record). item.caller == "tag:bob") full.records ≤ 32
unfolding full presence_code
small_share = omega arith

long_seen : 200 ≤ 20 + full.last_seen_ttl
unfolding full presence_code
long_seen = omega arith

trimmed : trim_space " g " ≡ "g"
unfolding presence_code
trimmed = refl

other_hash : "g2" ≢ trim_space " g "
other_hash = rw trimmed (λ e. cc)

heartbeat_with_grant_keeps_example :
    lookup "g2"
      (heartbeat_with_grant full 200 (beat "cat" " g " 500) (record { caller = "" })).0.records
    ≡ some bob_lease
heartbeat_with_grant_keeps_example =
    heartbeat_with_grant_keeps full 200 (beat "cat" " g " 500) (record { caller = "" }) "g2"
      bob_lease full-InStep held_lease refl long_seen small_share other_hash

revoke-IsRevoked_example : IsRevoked (trim_space " ann ") 60 full (revoke full 60 " ann ")
revoke-IsRevoked_example = revoke-IsRevoked full 60 " ann " full-InStep
