-- ===== src/Peer/Roster.antt =====
-- Histories of sync reports, and the roster that they keep: one status for each peer.
use dee_relay.Base.{
  ◌≡◌, ◌⊎◌, inl, inr, refl, Option, some, List, [], ◌∷◌, ◌++◌, String, string_key, arith,
  Option-cases, In, if_both, is_empty, ◌||◌, sym, ◌∙◌, ap, subst,
}
use dee_relay.Map.{Map, lookup, has, insert, lookup-insert}
use dee_relay.Map.Count.{is_held}
use dee_relay.Model.{Time}
use dee_relay.Peer.Pool.{
  Status, Pool, fresh_status, add_peers, targets, record_success, record_failure,
}

pub data Call : Type 0 where
  succeeds : String → String → Call
  fails : String → Option String → Call

unfoldable pub step : Pool → Time × Call → Pool
step p (now, succeeds url claimed_id) = record_success p url claimed_id now
step p (now, fails url error) = record_failure p url error now

unfoldable pub run : Pool → List (Time × Call) → Pool
unfolding step
run p [] = p
run p (c ∷ cs) = run (step p c) cs

-- A status stands under its own url, and exactly the peers of the roster have one.
pub record IsRoster (p : Pool) : Type 0 where
  pub filed : (url : String) (st : Status) → lookup url p.status ≡ some st → st.url ≡ url
  pub listed : (url : String) (st : Status) → lookup url p.status ≡ some st → In url p.peers
  pub held : (url : String) → In url p.peers → is_held (lookup url p.status) ≡ 1

pub In-snoc : (u url : String) (us : List String) → In u (us ++ (url ∷ [])) → In u us ⊎ (url ≡ u)
In-snoc u url [] (inl e) = inr e
In-snoc u url [] (inr h) = absurd h
In-snoc u url (w ∷ us) (inl e) = inl (inl e)
In-snoc u url (w ∷ us) (inr h) = elim (In-snoc u url us h) [ inl k ↦ inl (inr k) | inr e ↦ inr e ]

pub In-snoc_old : (u url : String) (us : List String) → In u us → In u (us ++ (url ∷ []))
In-snoc_old u url [] h = absurd h
In-snoc_old u url (w ∷ us) (inl e) = inl e
In-snoc_old u url (w ∷ us) (inr h) = inr (In-snoc_old u url us h)

pub In-snoc_new : (url : String) (us : List String) → In url (us ++ (url ∷ []))
In-snoc_new url [] = inl refl
In-snoc_new url (w ∷ us) = inr (In-snoc_new url us)

inserted :
    (url u : String) (st x : Status) (m : Map String Status)
    → lookup u (insert url st m) ≡ some x
    → ((url ≡ u) × (st ≡ x)) ⊎ (lookup u m ≡ some x)
inserted url u st x m h = ground (arith, h, lookup-insert url u st m)

url-fresh_status : (url : String) → (fresh_status url).url ≡ url
unfolding fresh_status
url-fresh_status url = refl

module _ {p : Pool} (v : IsRoster p) where
  updated-IsRoster :
      (url : String) (old st : Status)
      → lookup url p.status ≡ some old
      → st.url ≡ old.url
      → IsRoster (record p { status = insert url st p.status })
  updated-IsRoster url old st e same = record {
    filed = λ u x h. elim (inserted url u st x p.status h) [
      | inl (here, new) ↦ ap (λ y. y.url) (sym new) ∙ same ∙ v.filed url old e ∙ here
      | inr kept ↦ v.filed u x kept
    ];
    listed = λ u x h. elim (inserted url u st x p.status h) [
      | inl (here, new) ↦ subst (λ w. In w p.peers) here (v.listed url old e)
      | inr kept ↦ v.listed u x kept
    ];
    held = λ u h. ground (arith, v.held u h, lookup-insert url u st p.status);
  }

  pub added-IsRoster :
      (url : String)
      → IsRoster (record p {
        peers = p.peers ++ (url ∷ []);
        status = insert url (fresh_status url) p.status;
      })
  added-IsRoster url = record {
    filed = λ u x h. elim (inserted url u (fresh_status url) x p.status h) [
      | inl (here, new) ↦ ap (λ y. y.url) (sym new) ∙ url-fresh_status url ∙ here
      | inr kept ↦ v.filed u x kept
    ];
    listed = λ u x h. elim (inserted url u (fresh_status url) x p.status h) [
      | inl (here, new) ↦ subst (λ w. In w (p.peers ++ (url ∷ []))) here (In-snoc_new url p.peers)
      | inr kept ↦ In-snoc_old u url p.peers (v.listed u x kept)
    ];
    held = λ u h. elim (In-snoc u url p.peers h) [
      | inl old ↦ ground (arith, v.held u old, lookup-insert url u (fresh_status url) p.status)
      | inr here ↦ ground (arith, here, lookup-insert url u (fresh_status url) p.status)
    ];
  }

step-IsRoster : (p : Pool) (c : Time × Call) → IsRoster p → IsRoster (step p c)
unfolding step record_success record_failure
step-IsRoster p (now, succeeds url claimed_id) v = elim (Option-cases (lookup url p.status)) [
  | inl e ↦ rw (e, record_success) v
  | inr (old, e) ↦ rw (e, record_success) (updated-IsRoster v url old _ e refl)
]
step-IsRoster p (now, fails url error) v = elim (Option-cases (lookup url p.status)) [
  | inl e ↦ rw (e, record_failure) v
  | inr (old, e) ↦ rw (e, record_failure) (updated-IsRoster v url old _ e refl)
]

step-targets : (p : Pool) (c : Time × Call) → targets (step p c) ≡ targets p
unfolding step record_success record_failure targets
step-targets p (now, succeeds url claimed_id) = elim (Option-cases (lookup url p.status)) [
  | inl e ↦ rw (e, record_success) refl
  | inr (old, e) ↦ rw (e, record_success) refl
]
step-targets p (now, fails url error) = elim (Option-cases (lookup url p.status)) [
  | inl e ↦ rw (e, record_failure) refl
  | inr (old, e) ↦ rw (e, record_failure) refl
]

pub run-IsRoster : (p : Pool) (cs : List (Time × Call)) → IsRoster p → IsRoster (run p cs)
unfolding run
run-IsRoster p [] v = v
run-IsRoster p (c ∷ cs) v = run-IsRoster (step p c) cs (step-IsRoster p c v)

pub run-targets : (p : Pool) (cs : List (Time × Call)) → targets (run p cs) ≡ targets p
unfolding run
run-targets p [] = refl
run-targets p (c ∷ cs) = run-targets (step p c) cs ∙ step-targets p c

pub add_peers-IsRoster : (urls : List String) (p : Pool) → IsRoster p → IsRoster (add_peers urls p)
unfolding add_peers
add_peers-IsRoster [] p v = v
add_peers-IsRoster (url ∷ urls) p v =
    if_both (λ (q : Pool). IsRoster (add_peers urls q)) (is_empty url || has url p.status)
      (add_peers-IsRoster urls p v) (add_peers-IsRoster urls _ (added-IsRoster v url))
