-- ===== src/Peer/Configured.antt =====
-- The roster is what the operator configured: no answer of a peer adds or removes a target.
use dee_relay.Base.{
  ◌≡◌, ◌⊎◌, ◌≢◌, inl, inr, refl, Bool, true, false, List, [], ◌∷◌, ◌++◌, String, string_key, arith,
  Option-cases, In, if◌then◌else◌, if_both, is_empty, ◌||◌, sym, ◌∙◌, not_empty→ne, subst,
  Bool-cases, is_empty→eq, ◌↔◌,
}
use dee_relay.Map.{lookup, has, insert}
use dee_relay.Model.{Time}
use dee_relay.Peer.Pool.{Pool, fresh_status, add_peers, new_pool, targets}
use dee_relay.Peer.Roster.{
  IsRoster, In-snoc, In-snoc_old, In-snoc_new, added-IsRoster, run-IsRoster, run-targets,
  add_peers-IsRoster, run, Call,
}

-- What is configured: the urls that are not empty.
abbrev Configured : List String → String → Type 0
Configured urls url = In url urls × (url ≢ "")

abbrev with_peer : String → Pool → Pool
with_peer url p = record p {
  peers = p.peers ++ (url ∷ []);
  status = insert url (fresh_status url) p.status;
}

add_peers_step :
    (url : String) (urls : List String) (p : Pool) (b : Bool)
    → (is_empty url || has url p.status) ≡ b
    → add_peers (url ∷ urls) p ≡ add_peers urls (if b then p else with_peer url p)
unfolding add_peers
add_peers_step url urls p b e =
    subst (λ c. add_peers (url ∷ urls) p ≡ add_peers urls (if c then p else with_peer url p)) e refl

known_or_empty :
    (url : String) (p : Pool)
    → IsRoster p
    → (is_empty url || has url p.status) ≡ true
    → (url ≡ "") ⊎ In url p.peers
unfolding has
known_or_empty url p v h = elim (Option-cases (lookup url p.status)) [
  | inl e ↦ inl (is_empty→eq url (ground (arith, e, h)))
  | inr (st, e) ↦ inr (v.listed url st e)
]

not_empty_new : (url : String) (p : Pool) → (is_empty url || has url p.status) ≡ false → url ≢ ""
not_empty_new url p h = not_empty→ne url (ground arith)

-- No target but the configured ones.
peers-add_peers :
    (urls : List String) (p : Pool) (u : String)
    → In u (add_peers urls p).peers
    → In u p.peers ⊎ Configured urls u
unfolding add_peers
peers-add_peers [] p u h = inl h
peers-add_peers (url ∷ urls) p u h = elim (Bool-cases (is_empty url || has url p.status)) [
  | inl e ↦
      elim (peers-add_peers urls p u
        (subst (λ q. In u q.peers) (add_peers_step url urls p true e) h)) [
          | inl k ↦ inl k
          | inr (k, full) ↦ inr (inr k, full)
        ]
  | inr e ↦
      elim (peers-add_peers urls (with_peer url p) u
        (subst (λ q. In u q.peers) (add_peers_step url urls p false e) h)) [
          | inl k ↦ elim (In-snoc u url p.peers k) [
            | inl old ↦ inl old
            | inr here ↦ inr (inl here, subst (λ w. w ≢ "") here (not_empty_new url p e))
          ]
          | inr (k, full) ↦ inr (inr k, full)
        ]
]

-- Every target that stands stays.
kept-add_peers :
    (urls : List String) (p : Pool) (u : String) → In u p.peers → In u (add_peers urls p).peers
unfolding add_peers
kept-add_peers [] p u h = h
kept-add_peers (url ∷ urls) p u h =
    if_both (λ (q : Pool). In u (add_peers urls q).peers) (is_empty url || has url p.status)
      (kept-add_peers urls p u h)
      (kept-add_peers urls (with_peer url p) u (In-snoc_old u url p.peers h))

-- Every configured url is a target.
configured-add_peers :
    (urls : List String) (p : Pool) (u : String)
    → IsRoster p
    → Configured urls u
    → In u (add_peers urls p).peers
configured-add_peers [] p u v (h, full) = absurd h
configured-add_peers (url ∷ urls) p u v (h, full) =
    elim (Bool-cases (is_empty url || has url p.status)) [
      | inl e ↦
          subst (λ q. In u q.peers) (sym (add_peers_step url urls p true e))
            (elim h [
              | inl here ↦ elim (known_or_empty url p v e) [
                | inl blank ↦ absurd (full (sym here ∙ blank))
                | inr old ↦ kept-add_peers urls p u (subst (λ w. In w p.peers) here old)
              ]
              | inr later ↦ configured-add_peers urls p u v (later, full)
            ])
      | inr e ↦
          subst (λ q. In u q.peers) (sym (add_peers_step url urls p false e))
            (elim h [
              | inl here ↦
                  kept-add_peers urls (with_peer url p) u
                    (subst (λ w. In w (p.peers ++ (url ∷ []))) here (In-snoc_new url p.peers))
              | inr later ↦
                  configured-add_peers urls (with_peer url p) u (added-IsRoster v url) (later, full)
            ])
    ]

abbrev empty_pool : String → Pool
empty_pool self_id = record { self_id = self_id; peers = []; status = [] }

empty-IsRoster : (self_id : String) → IsRoster (empty_pool self_id)
unfolding lookup
empty-IsRoster self_id = record {
  filed = λ u x h. absurd (cc);
  listed = λ u x h. absurd (cc);
  held = λ u h. absurd h;
}

-- Whatever the syncs report, of peers on the roster or not, the roster stays what was configured: its
-- targets are the urls of the configuration that are not empty, they are those of the new pool in the
-- same order, and each has one status, filed under its url, as nothing else has.
pub run-new_pool :
    (self_id : String) (urls : List String) (cs : List (Time × Call))
    → IsRoster (run (new_pool self_id urls) cs)
      × (targets (run (new_pool self_id urls) cs) ≡ targets (new_pool self_id urls))
      × ((url : String)
          → In url (targets (run (new_pool self_id urls) cs)) ↔ (In url urls × (url ≢ "")))
unfolding new_pool targets
run-new_pool self_id urls cs = (
  run-IsRoster p cs (add_peers-IsRoster urls (empty_pool self_id) (empty-IsRoster self_id)),
  same,
  λ url. (
    (λ h. elim (peers-add_peers urls (empty_pool self_id) url (subst (In url) same h)) [
      | inl k ↦ absurd k
      | inr k ↦ k
    ]),
    (λ k.
        subst (In url) (sym same)
          (configured-add_peers urls (empty_pool self_id) url (empty-IsRoster self_id) k)),
  ),
)
  where
    p : Pool
    p = add_peers urls (empty_pool self_id)

    same : (run p cs).peers ≡ p.peers
    same = run-targets p cs
