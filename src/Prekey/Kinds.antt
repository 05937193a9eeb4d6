-- ===== src/Prekey/Kinds.antt =====
-- Two properties that the pools of internal/prekey/store.go keep: the cap and the distinct ids, and the
-- absence of an id that nobody publishes.
use dee_relay.Base.{
  ℕ, ◌≤◌, ◌≡◌, ◌≢◌, ◌==◌, refl, Bool, false, List, [], ◌∷◌, ◌++◌, String, string_key, length, arith,
  if_both, length-append,
}
use dee_relay.Model.{PrekeyEntry}
use dee_relay.Prekey.Pools.{Entry, kept_of}
use dee_relay.Prekey.Publish.{has_id, ids_of}
use dee_relay.Prekey.Every.{Robust}
use dee_relay.Prekey.Fill.{Appends, has_id-append}

-- No id twice, and no more entries than the cap.
abbrev pub NoDup : List String → Type 0
NoDup [] = Unit
NoDup (i ∷ ids) = (has_id i ids ≡ false) × NoDup ids

abbrev pub IsPool : ℕ → String → List Entry → Type 0
IsPool cap key queue = NoDup (ids_of queue) × (length queue ≤ cap)

has_id-kept_of :
    (p : Entry → Bool) (queue : List Entry) (i : String)
    → has_id i (ids_of queue) ≡ false
    → has_id i (ids_of (kept_of p queue)) ≡ false
unfolding has_id ids_of kept_of
has_id-kept_of p [] i h = refl
has_id-kept_of p (item ∷ queue) i h = ground (arith, has_id-kept_of p queue i)

length-kept_of : (p : Entry → Bool) (queue : List Entry) → length (kept_of p queue) ≤ length queue
unfolding kept_of
length-kept_of p [] = omega arith
length-kept_of p (item ∷ queue) = ground (arith, length-kept_of p queue)

NoDup-kept_of :
    (p : Entry → Bool) (queue : List Entry)
    → NoDup (ids_of queue)
    → NoDup (ids_of (kept_of p queue))
unfolding ids_of kept_of
NoDup-kept_of p [] d = tt
NoDup-kept_of p (item ∷ queue) d =
    if_both (λ (q : List Entry). NoDup (ids_of q)) (p item)
      (has_id-kept_of p queue item.value.opk_id d.0, NoDup-kept_of p queue d.1)
      (NoDup-kept_of p queue d.1)

has_id_swap : (i j : String) → (i == j) ≡ false → (j == i) ≡ false
has_id_swap i j h = ground arith

NoDup-append :
    (queue : List Entry) (item : Entry)
    → has_id item.value.opk_id (ids_of queue) ≡ false
    → NoDup (ids_of queue)
    → NoDup (ids_of (queue ++ (item ∷ [])))
unfolding ids_of has_id
NoDup-append [] item new d = (refl, tt)
NoDup-append (other ∷ queue) item new d = (
  ground (arith, new, d, has_id-append other.value.opk_id queue item),
  NoDup-append queue item (ground (arith, new)) d.1,
)

pub IsPool-Robust : (cap : ℕ) → Robust (IsPool cap)
unfolding ids_of
IsPool-Robust cap = record {
  empty = λ key. (tt, omega arith);
  tail = λ key item queue h. (h.0.1, omega (arith, h.1));
  sieved = λ key p queue h. (NoDup-kept_of p queue h.0, omega (arith, h.1, length-kept_of p queue));
}

abbrev pub Anything : String → PrekeyEntry → Type 0
Anything key e = Unit

pub IsPool-Appends : (cap : ℕ) → Appends cap Anything (IsPool cap)
IsPool-Appends cap key queue item kind few new h =
    (NoDup-append queue item new h.0, omega (arith, few, length-append queue (item ∷ [])))

-- The pool of one bucket does not hold an id.
abbrev pub Lacks : String → String → String → List Entry → Type 0
Lacks k i key queue = key ≡ k → has_id i (ids_of queue) ≡ false

abbrev pub IsOther : String → String → String → PrekeyEntry → Type 0
IsOther k i key e = key ≡ k → e.opk_id ≢ i

pub Lacks-Robust : (k i : String) → Robust (Lacks k i)
unfolding ids_of has_id
Lacks-Robust k i = record {
  empty = λ key e. refl;
  tail = λ key item queue h e. ground (arith, h e);
  sieved = λ key p queue h e. has_id-kept_of p queue i (h e);
}

pub Lacks-Appends : (cap : ℕ) (k i : String) → Appends cap (IsOther k i) (Lacks k i)
Lacks-Appends cap k i key queue item kind few new h e =
    ground (arith, h e, kind e, has_id-append i queue item)
