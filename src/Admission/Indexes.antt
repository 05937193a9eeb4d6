-- ===== src/Admission/Indexes.antt =====
-- Replace: the per-boot index of a credential, through any number of reloads.
use dee_relay.Base.{
  ℕ, ◌+◌, ◌%◌, ◌^◌, ◌≤◌, ◌<◌, ◌≡◌, refl, subst, none, some, List, [], ◌∷◌, String, string_key,
  length, arith, Option-cases, inl, inr, string_discrete,
}
use dee_relay.Map.{
  Map, lookup, has, insert, lookup-insert, lookup-insert_same, Distinct, Distinct-insert,
}
use dee_relay.Map.Count.{length-insert}
use dee_relay.Admission.Types.{Credential}
use dee_relay.Admission.Store.{Store, new_store, give_index, load, replace}

-- The indexes are the numbers from 1 to nextIndex, each given to one credential.
pub record IsNumbered (index : Map String ℕ) (next_index : ℕ) : Type 0 where
  pub distinct : Distinct index
  pub next : next_index ≡ length index
  pub bounded : (id : String) (i : ℕ) → lookup id index ≡ some i → (0 < i) × (i ≤ next_index)
  pub unique :
      (id other : String) (i : ℕ)
      → lookup id index ≡ some i
      → lookup other index ≡ some i
      → id ≡ other

-- What the loop does to the indexes, as long as a uint32 counts them.
record Numbers (s t : Store) : Type 0 where
  kept : (id : String) (i : ℕ) → lookup id s.index ≡ some i → lookup id t.index ≡ some i
  grown : length s.index ≤ length t.index
  numbered :
      length t.index < 2 ^ 32 → IsNumbered s.index s.next_index → IsNumbered t.index t.next_index

give_new :
    (s : Store) (id : String)
    → lookup id s.index ≡ none
    → length (insert id ((s.next_index + 1) % 2 ^ 32) s.index) < 2 ^ 32
    → IsNumbered s.index s.next_index
    → IsNumbered (insert id ((s.next_index + 1) % 2 ^ 32) s.index) ((s.next_index + 1) % 2 ^ 32)
give_new s id e few v =
    let n = (s.next_index + 1) % 2 ^ 32 in
    let size = length-insert id n s.index in
    let plain : n ≡ s.next_index + 1 = ground (arith, e, size, v.next) in
    record {
      distinct = Distinct-insert id n s.index v.distinct;
      next = ground (arith, e, size, v.next, plain);
      bounded =
          λ other i h. ground (arith, lookup-insert id other n s.index, v.bounded other i, plain);
      unique = λ a b i h k. ground (
        arith,
        lookup-insert id a n s.index,
        lookup-insert id b n s.index,
        v.unique a b i,
        v.bounded a i,
        v.bounded b i,
        plain,
      );
    }

give_index-Numbers : (s : Store) (id : String) → Numbers s (give_index s id)
unfolding give_index has
give_index-Numbers s id = elim (Option-cases (lookup id s.index)) [
  | inr (i, e) ↦
      rw (give_index, has, e)
        (record { kept = λ other j h. h; grown = omega arith; numbered = λ few v. v })
  | inl e ↦
      let n = (s.next_index + 1) % 2 ^ 32 in
      rw (give_index, has, e)
        (record {
          kept = λ other j h. ground (arith, e, lookup-insert id other n s.index);
          grown = ground (arith, e, length-insert id n s.index);
          numbered = give_new s id e;
        })
]

given_index : (s : Store) (id : String) → (i : ℕ) × (lookup id (give_index s id).index ≡ some i)
unfolding give_index has
given_index s id = elim (Option-cases (lookup id s.index)) [
  | inr (i, e) ↦ (i, rw (give_index, has, e) e)
  | inl e ↦
      let n = (s.next_index + 1) % 2 ^ 32 in
      (n, rw (give_index, has, e) (lookup-insert_same id n s.index))
]

Numbers-trans : {s t u : Store} → Numbers s t → Numbers t u → Numbers s u
Numbers-trans v w = record {
  kept = λ id i h. w.kept id i (v.kept id i h);
  grown = omega (arith, v.grown, w.grown);
  numbered = λ few x. w.numbered few (v.numbered (omega (arith, w.grown)) x);
}

load-Numbers :
    (credentials : List Credential) (next : Map String Credential) (s : Store)
    → Numbers s (load credentials next s).1
unfolding load
load-Numbers [] next s = record { kept = λ id i h. h; grown = omega arith; numbered = λ few v. v }
load-Numbers (c ∷ rest) next s =
    Numbers-trans (give_index-Numbers s c.id)
      (load-Numbers rest (insert c.id c next) (give_index s c.id))

-- A loaded credential has an index.
abbrev pub AreKnown : Map String Credential → Store → Type 0
AreKnown next s =
    (id : String) (c : Credential)
    → lookup id next ≡ some c
    → (i : ℕ) × (lookup id s.index ≡ some i)

load-AreKnown :
    (credentials : List Credential) (next : Map String Credential) (s : Store)
    → AreKnown next s
    → AreKnown (load credentials next s).0 (load credentials next s).1
unfolding load
load-AreKnown [] next s v = v
load-AreKnown (c ∷ rest) next s v =
    load-AreKnown rest (insert c.id c next) (give_index s c.id) λ id x h.
      elim (string_discrete c.id id) [
        | yes same ↦
            subst (λ k. (i : ℕ) × (lookup k (give_index s c.id).index ≡ some i)) same
              (given_index s c.id)
        | no apart ↦
            let (i, e) = v id x (ground (arith, lookup-insert c.id id c next)) in
            (i, (give_index-Numbers s c.id).kept id i e)
      ]

-- The reloads of the file, one after the other.
unfoldable pub reload : Store → List (List Credential) → Store
reload s [] = s
reload s (credentials ∷ more) = reload (replace s credentials) more

replace-Numbers : (s : Store) (credentials : List Credential) → Numbers s (replace s credentials)
unfolding replace
replace-Numbers s credentials =
    let w = load-Numbers credentials [] s in
    record { kept = w.kept; grown = w.grown; numbered = w.numbered }

reload-Numbers : (s : Store) (files : List (List Credential)) → Numbers s (reload s files)
unfolding reload
reload-Numbers s [] = record { kept = λ id i h. h; grown = omega arith; numbered = λ few v. v }
reload-Numbers s (credentials ∷ more) =
    Numbers-trans (replace-Numbers s credentials) (reload-Numbers (replace s credentials) more)

new_store-IsNumbered : IsNumbered new_store.index new_store.next_index
unfolding new_store lookup
new_store-IsNumbered = record {
  distinct = tt;
  next = refl;
  bounded = λ id i h. absurd (cc h);
  unique = λ id other i h k. absurd (cc h);
}

nothing : (id : String) (c : Credential) → ¬ (lookup id [] ≡ some c)
unfolding lookup
nothing id c h = cc h

-- However often the file is reloaded, a credential keeps the index that it got first, present in the
-- file or not, each credential of the last file has an index, and as long as fewer than 2^32
-- credentials were ever seen, no index is zero and no two credentials share one.
pub reload-IsNumbered :
    (before : List (List Credential)) (last : List Credential)
    → let s = reload new_store before in
      let t = replace s last in
      ((id : String) (i : ℕ) → lookup id s.index ≡ some i → lookup id t.index ≡ some i)
      × AreKnown t.credentials t
      × (length t.index < 2 ^ 32 → IsNumbered t.index t.next_index)
unfolding replace
reload-IsNumbered before last =
    let s = reload new_store before in
    let v = replace-Numbers s last in
    (
      v.kept,
      load-AreKnown last [] s (λ id c h. absurd (nothing id c h)),
      λ few. (Numbers-trans (reload-Numbers new_store before) v).numbered few new_store-IsNumbered,
    )
