-- ===== src/Presence/Revoke.antt =====
-- internal/presence/store.go: Revoke and ImportRevocations.
use dee_relay.Base.{
  ℕ, ◌+◌, ◌==◌, ◌&&◌, ◌||◌, Bool, not, none, some, List, [], ◌∷◌, String, string_key, if◌then◌else◌,
  leb, length, trim_space, is_empty,
}
use dee_relay.Map.{lookup, has, insert}
use dee_relay.Model.{Time, after, PresenceRevocation}
use dee_relay.Presence.Table.{Store, Record, drop_where}

unfoldable pub is_of_owner : String → Record → Bool
is_of_owner owner item = item.owner_hash == owner

unfoldable pub store_revocation_locked : Store → PresenceRevocation → Store
store_revocation_locked s value =
    if not (has value.owner_hash s.revocations) && leb s.max_records (length s.revocations)
    then s
    else record s { revocations = insert value.owner_hash value s.revocations }

unfoldable pub revoke : Store → Time → String → Store × ℕ
unfolding drop_where is_of_owner store_revocation_locked
revoke s now owner_hash =
    let owner = trim_space owner_hash in
    let (s', n) = drop_where (is_of_owner owner) s.records (s, 0) in
    let tombstone : PresenceRevocation = record {
      owner_hash = owner;
      updated_at = now;
      expires_at = now + s.last_seen_ttl;
    } in
    (store_revocation_locked s' tombstone, n)

-- A record of the owner that is no newer than the revocation.
unfoldable pub is_revoked : PresenceRevocation → Record → Bool
is_revoked value item =
    item.owner_hash == value.owner_hash && not (after item.updated_at value.updated_at)

-- No tombstone that is as new stands for the owner, and the map has room for this one.
unfoldable pub takes_revocation : Store → PresenceRevocation → Bool
takes_revocation s value = elim (lookup value.owner_hash s.revocations) [
  | none ↦ not (leb s.max_records (length s.revocations))
  | some current ↦ after value.updated_at current.updated_at
]

unfoldable pub import_revocation : Time → PresenceRevocation → Store → Store
unfolding takes_revocation drop_where is_revoked
import_revocation now value s =
    if is_empty value.owner_hash || not (after value.expires_at now)
    then s
    else if not (takes_revocation s value)
    then s
    else let s' : Store = record s { revocations = insert value.owner_hash value s.revocations } in
      (drop_where (is_revoked value) s'.records (s', 0)).0

unfoldable pub import_revocations : Store → Time → List PresenceRevocation → Store
unfolding import_revocation
import_revocations s now [] = s
import_revocations s now (value ∷ values) =
    import_revocations (import_revocation now value s) now values
