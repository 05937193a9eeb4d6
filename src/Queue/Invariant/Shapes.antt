-- ===== src/Queue/Invariant/Shapes.antt =====
-- No write puts a key into a counter or an index twice, and no index keeps an empty set.
use dee_relay.Base.{◌-◌, [], String, string_key, arith, Option-cases, inl, inr}
use dee_relay.Map.{
  Map, lookup, get_or, insert, remove, lookup-insert, lookup-remove, Distinct, Distinct-insert,
  Distinct-remove,
}
use dee_relay.Map.Count.{length-insert}
use dee_relay.Queue.Store.{
  Index, TagBinding, index_add, index_remove, bind_message_tag, raise_binding, no_binding,
  release_message_tag,
}
use dee_relay.Queue.Invariant.{IsIdSet}

module _ (id : String) (tags : Map String TagBinding) (d : Distinct tags) where
  pub Distinct-bind : (tag : String) → Distinct (bind_message_tag id tag tags)
  unfolding bind_message_tag
  Distinct-bind tag =
      ground (arith, Distinct-insert id (raise_binding tag (get_or no_binding id tags)) tags d)

  pub Distinct-release : Distinct (release_message_tag id tags)
  unfolding release_message_tag
  Distinct-release = elim (Option-cases (lookup id tags)) [
    | inl e ↦ rw (e, release_message_tag) d
    | inr (b, e) ↦
        rw (e, release_message_tag)
          (ground (
            arith,
            Distinct-insert id (record b { records = b.records - 1 }) tags d,
            Distinct-remove id tags d,
          ))
  ]

module _ (index : Index) (key id : String) where
  pub Distinct-index_add : Distinct index → Distinct (index_add index key id)
  unfolding index_add
  Distinct-index_add d =
      ground (arith, Distinct-insert key (insert id tt (get_or [] key index)) index d)

  pub Distinct-index_remove : Distinct index → Distinct (index_remove index key id)
  unfolding index_remove
  Distinct-index_remove d = elim (Option-cases (lookup key index)) [
    | inl e ↦ rw (e, index_remove) d
    | inr (ids, e) ↦
        rw (e, index_remove)
          (ground (arith, Distinct-insert key (remove id ids) index d, Distinct-remove key index d))
  ]

  pub IsIdSet-index_add :
      (h : String)
      → IsIdSet (lookup key index)
      → IsIdSet (lookup h index)
      → IsIdSet (lookup h (index_add index key id))
  unfolding index_add get_or lookup
  IsIdSet-index_add h old other = ground (
    arith,
    Distinct-insert id tt (get_or [] key index),
    length-insert id tt (get_or [] key index),
    lookup-insert key h (insert id tt (get_or [] key index)) index,
  )

  pub IsIdSet-index_remove :
      (h : String)
      → IsIdSet (lookup key index)
      → IsIdSet (lookup h index)
      → IsIdSet (lookup h (index_remove index key id))
  unfolding index_remove
  IsIdSet-index_remove h old other = elim (Option-cases (lookup key index)) [
    | inl e ↦ rw (e, index_remove) other
    | inr (ids, e) ↦
        rw (e, index_remove)
          (ground (
            arith,
            Distinct-remove id ids,
            lookup-insert key h (remove id ids) index,
            lookup-remove key h index,
          ))
  ]
