-- ===== src/Prekey/Fill.antt =====
-- Publish keeps a property of every pool that survives the entries it may append.
use dee_relay.Base.{
  ℕ, ◌+◌, ◌<◌, ◌≡◌, ◌==◌, ◌||◌, refl, Bool, true, false, Option, none, some, List, [], ◌∷◌, ◌++◌,
  String, string_key, length, arith, All, if◌then◌else◌, subst, string_discrete, trim_space,
}
use dee_relay.Map.{get_or, lookup-insert, Distinct-insert}
use dee_relay.Model.{Time, PrekeyEntry, PrekeyPublish}
use dee_relay.Prekey.Pools.{Store, Entry}
use dee_relay.Prekey.Publish.{
  has_id, ids_of, trim_entry, append_entry, add_entries, put_last_resort, fill_pool,
}
use dee_relay.Prekey.Every.{Robust, Every, same_queues}

pub has_id-append :
    (id : String) (queue : List Entry) (item : Entry)
    → has_id id (ids_of (queue ++ (item ∷ [])))
      ≡ (has_id id (ids_of queue) || item.value.opk_id == id)
unfolding has_id ids_of
has_id-append id [] item = ground arith
has_id-append id (other ∷ queue) item = ground (arith, has_id-append id queue item)

-- Every id of the queue stands in the list.
abbrev Covers : List String → List Entry → Type 0
Covers existing queue = (i : String) → has_id i existing ≡ false → has_id i (ids_of queue) ≡ false

three_ways {ℓ κ} :
    {A : Type ℓ} (P : A → Type κ) (b c d : Bool) {x y z : A}
    → P x
    → P y
    → (c ≡ false → d ≡ false → P z)
    → P (if b then x else if c then x else if d then y else z)
three_ways P true c d p q r = p
three_ways P false true d p q r = p
three_ways P false false true p q r = q
three_ways P false false false p q r = r refl refl

get_or-append_entry :
    (key : String) (now : Time) (e : PrekeyEntry) (s : Store) (j : String)
    → get_or [] j (append_entry key now e s).queues ≡ (
        if key == j
        then get_or [] key s.queues ++ (record { value = e; published_at = now } ∷ [])
        else get_or [] j s.queues)
unfolding append_entry get_or
get_or-append_entry key now e s j = ground (
  arith,
  lookup-insert key j (get_or [] key s.queues ++ (record { value = e; published_at = now } ∷ []))
      s.queues,
)

Covers-append_entry :
    (s : Store) (key : String) (now : Time) (e : PrekeyEntry) (existing : List String)
    → Covers existing (get_or [] key s.queues)
    → Covers (e.opk_id ∷ existing) (get_or [] key (append_entry key now e s).queues)
unfolding has_id
Covers-append_entry s key now e existing covers i h = ground (
  arith,
  covers i,
  get_or-append_entry key now e s key,
  has_id-append i (get_or [] key s.queues) (record { value = e; published_at = now }),
)

queues-put_last_resort :
    (key : String) (now : Time) (o : Option PrekeyEntry) (s : Store)
    → (put_last_resort key now o s).queues ≡ s.queues
unfolding put_last_resort
queues-put_last_resort key now none s = refl
queues-put_last_resort key now (some e) s = ground arith

-- What a pool with the property may take in: an entry of a kind, with an id that it does not hold,
-- while it is below the cap.
abbrev pub Appends : ℕ → (String → PrekeyEntry → Type 0) → (String → List Entry → Type 0) → Type 0
Appends cap Kind P =
    (key : String) (queue : List Entry) (item : Entry)
    → Kind key item.value
    → length queue < cap
    → has_id item.value.opk_id (ids_of queue) ≡ false
    → P key queue
    → P key (queue ++ (item ∷ []))

module _ (P : String → List Entry → Type 0) (Kind : String → PrekeyEntry → Type 0) (cap : ℕ)
    (robust : Robust P) (appends : Appends cap Kind P) where
  append_entry-Every :
      (s : Store) (key : String) (now : Time) (e : PrekeyEntry)
      → Kind key e
      → length (get_or [] key s.queues) < cap
      → has_id e.opk_id (ids_of (get_or [] key s.queues)) ≡ false
      → Every P s
      → Every P (append_entry key now e s)
  unfolding append_entry
  append_entry-Every s key now e kind few new v = record {
    distinct = Distinct-insert key _ s.queues v.distinct;
    each = λ j. elim (string_discrete key j) [
      | yes p ↦ subst (P j) (ground (arith, get_or-append_entry key now e s j)) (
          subst
            (λ k. P k (get_or [] key s.queues ++ (record { value = e; published_at = now } ∷ []))) p
            (appends key (get_or [] key s.queues) (record { value = e; published_at = now }) kind
              few new (v.each key)))
      | no p ↦ subst (P j) (ground (arith, get_or-append_entry key now e s j)) (v.each j)
    ];
  }

  add_entries-Every :
      (key : String) (now : Time) (candidates : List PrekeyEntry) (s : Store)
      (existing : List String) (added : ℕ)
      → s.max_per_recipient ≡ cap
      → All (λ e. Kind key (trim_entry e)) candidates
      → Covers existing (get_or [] key s.queues)
      → Every P s
      → Every P (add_entries key now candidates (s, existing, added)).0
  unfolding add_entries
  add_entries-Every key now [] s existing added c kinds covers v = v
  add_entries-Every key now (e ∷ candidates) s existing added c kinds covers v =
      three_ways (λ (r : Store × List String × ℕ). Every P r.0) _ _ _
        (add_entries-Every key now candidates s existing added c kinds.1 covers v) v
        (λ new few.
          add_entries-Every key now candidates (append_entry key now (trim_entry e) s)
            (trim_space e.opk_id ∷ existing) (added + 1) c kinds.1
            (Covers-append_entry s key now (trim_entry e) existing covers)
            (append_entry-Every s key now (trim_entry e) kinds.0 (ground (arith, few, c))
              (covers (trim_space e.opk_id) new) v))

  pub fill_pool-Every :
      (s : Store) (now : Time) (key : String) (value : PrekeyPublish)
      → s.max_per_recipient ≡ cap
      → All (λ e. Kind key (trim_entry e)) value.entries
      → Every P s
      → Every P (fill_pool s now key value).0
  unfolding fill_pool
  fill_pool-Every s now key value c kinds v =
      let start = ids_of (get_or [] key s.queues) in
      let t = (add_entries key now value.entries (s, start, 0)).0 in
      same_queues robust t (put_last_resort key now value.last_resort t)
        (queues-put_last_resort key now value.last_resort t)
        (add_entries-Every key now value.entries s start 0 c kinds (λ i h. h) v)
