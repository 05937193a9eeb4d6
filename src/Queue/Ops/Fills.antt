-- ===== src/Queue/Ops/Fills.antt =====
-- SnapshotSince: the refs that wait after a cursor, and the loop that fills a page from them.
use dee_relay.Base.{
  In, ℕ, ◌+◌, ◌≤◌, ◌<◌, ◌≡◌, inl, inr, refl, Bool, true, false, some, List, [], ◌∷◌, ◌++◌, String,
  string_key, length, All, arith, if_both, ltb, string_discrete, lt→ltb, length-append, sym, subst,
}
use dee_relay.Map.{Map, lookup, get_or}
use dee_relay.Model.{MessageEnvelope, AckRecord, SyncPayload}
use dee_relay.Queue.Store.{Store}
use dee_relay.Queue.Post.{no_ack}
use dee_relay.Queue.Replicate.{Ref, pending_refs, no_message, fill_page}
use dee_relay.Queue.Ops.Members.{In-left, In-right}

abbrev pub ref_of : ℕ → String → Bool → Ref
ref_of seq id is_ack = record { seq = seq; id = id; is_ack = is_ack }

same_ref :
    (j id : String) (n seq : ℕ) (is_ack : Bool)
    → j ≡ id
    → n ≡ seq
    → ref_of n j is_ack ≡ ref_of seq id is_ack
same_ref j id n seq is_ack p q = cc

-- The refs of a map's entries after the cursor.
pub In-pending :
    (is_ack : Bool) (since : ℕ) (m : Map String ℕ) (id : String) (seq : ℕ)
    → lookup id m ≡ some seq
    → since < seq
    → In (ref_of seq id is_ack) (pending_refs is_ack since m)
unfolding lookup pending_refs
In-pending is_ack since [] id seq e h = absurd (cc)
In-pending is_ack since ((j, n) ∷ m) id seq e h = elim (string_discrete j id) [
  | yes q ↦
      let same : n ≡ seq = ground arith in
      rw (lt→ltb since n (omega (arith, same, h))) (inl (same_ref j id n seq is_ack q same))
  | no q ↦
      let rest = In-pending is_ack since m id seq (ground arith) h in
      if_both (In (ref_of seq id is_ack)) (ltb since n) (inr rest) rest
]

module _ (s : Store) where
  fill_messages :
      (x : MessageEnvelope) (rs : List Ref) (p : SyncPayload)
      → In x p.messages
      → In x (fill_page s rs p).messages
  unfolding fill_page
  fill_messages x [] p h = h
  fill_messages x (r ∷ rs) p h =
      if_both (λ (q : SyncPayload). In x (fill_page s rs q).messages) r.is_ack
        (fill_messages x rs _ h)
        (fill_messages x rs _ (In-left x p.messages (get_or no_message r.id s.messages ∷ []) h))

  fill_acks :
      (x : AckRecord) (rs : List Ref) (p : SyncPayload) → In x p.acks → In x (fill_page s rs p).acks
  unfolding fill_page
  fill_acks x [] p h = h
  fill_acks x (r ∷ rs) p h =
      if_both (λ (q : SyncPayload). In x (fill_page s rs q).acks) r.is_ack
        (fill_acks x rs _ (In-left x p.acks (get_or no_ack r.id s.acks ∷ []) h))
        (fill_acks x rs _ h)

  head_message :
      (r : Ref) (rs : List Ref) (p : SyncPayload)
      → r.is_ack ≡ false
      → In (get_or no_message r.id s.messages) (fill_page s (r ∷ rs) p).messages
  unfolding fill_page
  head_message r rs p e = rw e (
      fill_messages (get_or no_message r.id s.messages) rs _
        (In-right _ p.messages (get_or no_message r.id s.messages ∷ []) (inl refl)))

  head_ack :
      (r : Ref) (rs : List Ref) (p : SyncPayload)
      → r.is_ack ≡ true
      → In (get_or no_ack r.id s.acks) (fill_page s (r ∷ rs) p).acks
  unfolding fill_page
  head_ack r rs p e = rw e (
      fill_acks (get_or no_ack r.id s.acks) rs _
        (In-right _ p.acks (get_or no_ack r.id s.acks ∷ []) (inl refl)))

  pub filled_message :
      (r : Ref) (rs : List Ref) (p : SyncPayload)
      → In r rs
      → r.is_ack ≡ false
      → In (get_or no_message r.id s.messages) (fill_page s rs p).messages
  unfolding fill_page
  filled_message r [] p h e = absurd h
  filled_message r (q ∷ rs) p (inr h) e = filled_message r rs _ h e
  filled_message r (q ∷ rs) p (inl same) e =
      subst (λ (w : Ref). In (get_or no_message r.id s.messages) (fill_page s (w ∷ rs) p).messages)
        (sym same) (head_message r rs p e)

  pub filled_ack :
      (r : Ref) (rs : List Ref) (p : SyncPayload)
      → In r rs
      → r.is_ack ≡ true
      → In (get_or no_ack r.id s.acks) (fill_page s rs p).acks
  unfolding fill_page
  filled_ack r [] p h e = absurd h
  filled_ack r (q ∷ rs) p (inr h) e = filled_ack r rs _ h e
  filled_ack r (q ∷ rs) p (inl same) e =
      subst (λ (w : Ref). In (get_or no_ack r.id s.acks) (fill_page s (w ∷ rs) p).acks) (sym same)
        (head_ack r rs p e)

  -- The cursor is the start, or the arrival of a record on the page.
  pub filled_seq :
      (bound : ℕ) (rs : List Ref) (p : SyncPayload)
      → p.next_seq ≤ bound
      → All (λ t. t.seq ≤ bound) rs
      → (fill_page s rs p).next_seq ≤ bound
  unfolding fill_page
  filled_seq bound [] p h all = h
  filled_seq bound (r ∷ rs) p h all =
      if_both (λ (q : SyncPayload). (fill_page s rs q).next_seq ≤ bound) r.is_ack
        (filled_seq bound rs _ all.0 all.1) (filled_seq bound rs _ all.0 all.1)

  pub filled_size :
      (rs : List Ref) (p : SyncPayload)
      → length (fill_page s rs p).messages + length (fill_page s rs p).acks
        ≡ length rs + (length p.messages + length p.acks)
  unfolding fill_page
  filled_size [] p = omega arith
  filled_size (r ∷ rs) p =
      let acked = get_or no_ack r.id s.acks ∷ [] in
      let mailed = get_or no_message r.id s.messages ∷ [] in
      let with_ack : SyncPayload = record p { acks = p.acks ++ acked; next_seq = r.seq } in
      let with_message : SyncPayload = record p {
        messages = p.messages ++ mailed;
        next_seq = r.seq;
      } in
      if_both
        (λ (q : SyncPayload).
          length (fill_page s rs q).messages + length (fill_page s rs q).acks
          ≡ length (r ∷ rs) + (length p.messages + length p.acks))
        r.is_ack (omega (arith, filled_size rs with_ack, length-append p.acks acked))
        (omega (arith, filled_size rs with_message, length-append p.messages mailed))

  pub filled_more : (rs : List Ref) (p : SyncPayload) → (fill_page s rs p).more ≡ p.more
  unfolding fill_page
  filled_more [] p = refl
  filled_more (r ∷ rs) p =
      if_both (λ (q : SyncPayload). (fill_page s rs q).more ≡ p.more) r.is_ack (filled_more rs _)
        (filled_more rs _)
