-- ===== src/Prekey/Publish.antt =====
-- internal/prekey/store.go: Publish.
use dee_relay.Base.{
  ℕ, ◌+◌, ◌==◌, ◌||◌, ◌&&◌, Bool, true, false, not, Option, none, some, List, [], ◌∷◌, ◌++◌, String,
  string_key, if◌then◌else◌, leb, length, map, trim_space, is_empty,
}
use dee_relay.Map.{get_or, insert}
use dee_relay.Model.{Time, PrekeyEntry, PrekeyPublish}
use dee_relay.Prekey.Pools.{
  Store, Entry, bucket_key, prune_locked, bucket_exists_locked, bucket_count_locked,
}

unfoldable pub has_id : String → List String → Bool
has_id id [] = false
has_id id (i ∷ ids) = i == id || has_id id ids

unfoldable pub trim_entry : PrekeyEntry → PrekeyEntry
trim_entry e = record e { opk_id = trim_space e.opk_id }

unfoldable pub is_incomplete : PrekeyEntry → Bool
is_incomplete e = is_empty e.opk_id || is_empty e.public_key || is_empty e.signature

unfoldable pub append_entry : String → Time → PrekeyEntry → Store → Store
append_entry key now e s = record s {
  queues =
      insert key (get_or [] key s.queues ++ (record { value = e; published_at = now } ∷ []))
        s.queues;
}

-- The loop over the candidates, with the ids that stand in the pool and the number added so far.
unfoldable pub add_entries :
    String → Time → List PrekeyEntry → Store × List String × ℕ → Store × List String × ℕ
unfolding has_id trim_entry is_incomplete append_entry
add_entries key now [] r = r
add_entries key now (candidate ∷ candidates) (s, existing, added) =
    let e = trim_entry candidate in
    let skipped = add_entries key now candidates (s, existing, added) in
    let taken =
      add_entries key now candidates (append_entry key now e s, e.opk_id ∷ existing, added + 1) in
    if is_incomplete e
    then skipped
    else if has_id e.opk_id existing
    then skipped
    else if leb s.max_per_recipient (length (get_or [] key s.queues))
    then (s, existing, added)
    else taken

unfoldable pub ids_of : List Entry → List String
ids_of queue = map (λ item. item.value.opk_id) queue

unfoldable pub put_last_resort : String → Time → Option PrekeyEntry → Store → Store
unfolding trim_entry is_incomplete
put_last_resort key now none s = s
put_last_resort key now (some e) s =
    if is_incomplete (trim_entry e)
    then s
    else let value : PrekeyEntry = record {
      opk_id = trim_space e.opk_id;
      public_key = e.public_key;
      signature = e.signature;
      last_resort = true;
    } in
      record s {
        last_resort = insert key (record { value = value; published_at = now }) s.last_resort;
      }

-- The pool exists, or there is room for it: the entries and the last resort go in.
unfoldable pub fill_pool : Store → Time → String → PrekeyPublish → Store × ℕ × Bool
unfolding add_entries ids_of put_last_resort
fill_pool s now key value =
    let start = ids_of (get_or [] key s.queues) in
    let (s', ids, added) = add_entries key now value.entries (s, start, 0) in
    (put_last_resort key now value.last_resort s', added, true)

unfoldable pub publish : Store → Time → String → PrekeyPublish → Store × ℕ × Bool
unfolding bucket_key prune_locked bucket_exists_locked bucket_count_locked fill_pool
publish s now owner_tag value =
    let owner = trim_space owner_tag in
    let key = bucket_key owner (trim_space value.device_key) in
    let s' = prune_locked now s in
    if is_empty owner
    then (s, 0, false)
    else if not (bucket_exists_locked s' key) && leb s.max_buckets (bucket_count_locked s')
    then (s', 0, false)
    else fill_pool s' now key value
