-- ===== src/Queue/Invariant/Indexes.antt =====
-- How the counters, the bindings and the two indexes answer after one write.
use dee_relay.Base.{
  ℕ, ◌+◌, ◌-◌, ◌≡◌, ◌∷◌, string_discrete, is_empty, ne→not_empty, refl, ◌≢◌, none, [], String,
  string_key, ite, length, arith, Option-cases, inl, inr,
}
use dee_relay.Map.{Map, lookup, get_or, insert, remove, lookup-insert, lookup-remove}
use dee_relay.Queue.Store.{
  Index, TagBinding, index_add, index_remove, bind_message_tag, raise_binding, no_binding,
  release_message_tag,
}
use dee_relay.Queue.Invariant.{Binds, listed}

lookup-length : (ids : Map String (Unit {0})) (i : String) → length ids ≡ 0 → lookup i ids ≡ none
unfolding lookup
lookup-length [] i h = refl
lookup-length (e ∷ ids) i h = absurd (omega arith)

module _ (tags : Map String TagBinding) (id j : String) (n : ℕ) where
  pub bind-Binds :
      (tag : String)
      → id ≢ ""
      → Binds (lookup j tags) n
      → Binds (lookup j (bind_message_tag id tag tags)) (ite (string_discrete id j) (n + 1) n)
  unfolding bind_message_tag raise_binding get_or
  bind-Binds tag e h = ground (
    arith,
    ne→not_empty id e,
    lookup-insert id j (raise_binding tag (get_or no_binding id tags)) tags,
  )

  pub release-Binds :
      Binds (lookup j tags) (ite (string_discrete id j) (n + 1) n)
      → Binds (lookup j (release_message_tag id tags)) n
  unfolding release_message_tag
  release-Binds h = elim (Option-cases (lookup id tags)) [
    | inl e ↦ rw (e, release_message_tag) (ground arith)
    | inr (b, e) ↦
        rw (e, release_message_tag)
          (ground (
            arith,
            lookup-insert id j (record b { records = b.records - 1 }) tags,
            lookup-remove id j tags,
          ))
  ]

module _ (index : Index) (key id hash i : String) where
  pub listed-index_add :
      key ≢ ""
      → id ≢ ""
      → listed hash i (index_add index key id)
        ≡ ite
            (string_discrete key hash)
            (ite (string_discrete id i) 1 (listed hash i index))
            (listed hash i index)
  unfolding index_add get_or
  listed-index_add hk hi = ground (
    arith,
    ne→not_empty key hk,
    ne→not_empty id hi,
    lookup-insert key hash (insert id tt (get_or [] key index)) index,
    lookup-insert id i tt (get_or [] key index),
  )

  pub listed-index_remove :
      listed hash i (index_remove index key id)
      ≡ ite
          (string_discrete key hash)
          (ite (string_discrete id i) 0 (listed hash i index))
          (listed hash i index)
  unfolding index_remove get_or lookup
  listed-index_remove = elim (Option-cases (lookup key index)) [
    | inl e ↦ rw (e, index_remove) (ground arith)
    | inr (ids, e) ↦
        rw (e, index_remove)
          (ground (
            arith,
            lookup-insert key hash (remove id ids) index,
            lookup-remove key hash index,
            lookup-remove id i ids,
            lookup-length (remove id ids) i,
          ))
  ]

pub index_add_empty : (index : Index) (id : String) → index_add index "" id ≡ index
unfolding index_add is_empty
index_add_empty index id = refl
