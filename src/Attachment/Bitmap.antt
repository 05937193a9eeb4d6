-- ===== src/Attachment/Bitmap.antt =====
-- internal/attachment/relay.go: the bitmap `seen` of a session, a slice of 64-bit words.
use dee_relay.Base.{
  ℕ, zero, suc, ◌+◌, ◌*◌, ◌/◌, ◌%◌, ◌<◌, ◌≡◌, ◌≢◌, refl, ap, sym, subst, Bool, true, Option, none,
  some, List, [], ◌∷◌, arith, ◌==◌, nat_key, length, get_elem?, set, length-set, Option-cases, inl,
  inr, get_elem?-set_same, get_elem?-set_other, get_elem?_in_range, get_elem?-lt, ℕ_discrete,
}

-- `word & (1 << bit) != 0`
unfoldable pub test_bit : ℕ → ℕ → Bool
test_bit word zero = word % 2 == 1
test_bit word (suc bit) = test_bit (word / 2) bit

-- `word | 1 << bit`
unfoldable pub set_bit : ℕ → ℕ → ℕ
set_bit word zero = word / 2 * 2 + 1
set_bit word (suc bit) = set_bit (word / 2) bit * 2 + word % 2

-- Whether the bit of an index is set; nothing where the word is out of range.
unfoldable pub has_seen : List ℕ → ℕ → Option Bool
unfolding test_bit
has_seen seen index = elim (get_elem? seen (index / 64)) [
  | none ↦ none
  | some word ↦ some (test_bit word (index % 64))
]

-- `seen[word] |= 1 << bit`
unfoldable pub mark_seen : List ℕ → ℕ → List ℕ
unfolding set_bit
mark_seen seen index = elim (get_elem? seen (index / 64)) [
  | none ↦ seen
  | some word ↦ set seen (index / 64) (set_bit word (index % 64))
]

-- `make([]T, n)` of numbers
unfoldable pub zeros : ℕ → List ℕ
zeros zero = []
zeros (suc n) = 0 ∷ zeros n

-- `make([]uint64, (total+63)/64)`
unfoldable pub words_for : ℕ → List ℕ
unfolding zeros
words_for total = zeros ((total + 63) / 64)

test-set_same : (word bit : ℕ) → test_bit (set_bit word bit) bit ≡ true
unfolding test_bit set_bit
test-set_same word zero = ground arith
test-set_same word (suc bit) = rw (half) (test-set_same (word / 2) bit)
  where
    half : (set_bit (word / 2) bit * 2 + word % 2) / 2 ≡ set_bit (word / 2) bit
    half = omega arith

test-set_other :
    (word bit other : ℕ) → bit ≢ other → test_bit (set_bit word bit) other ≡ test_bit word other
unfolding test_bit set_bit
test-set_other word zero zero h = absurd (h refl)
test-set_other word zero (suc other) h =
    let half : (word / 2 * 2 + 1) / 2 ≡ word / 2 = omega arith in rw half refl
test-set_other word (suc bit) zero h = ground arith
test-set_other word (suc bit) (suc other) h =
    let half : (set_bit (word / 2) bit * 2 + word % 2) / 2 ≡ set_bit (word / 2) bit = omega arith in
    rw half (test-set_other (word / 2) bit other (λ e. h (ap suc e)))

pub length-mark_seen : (seen : List ℕ) (index : ℕ) → length (mark_seen seen index) ≡ length seen
unfolding mark_seen
length-mark_seen seen index = elim (Option-cases (get_elem? seen (index / 64))) [
  | inl e ↦ rw (e, mark_seen) refl
  | inr (word, e) ↦ rw (e, mark_seen) (length-set seen (index / 64) (set_bit word (index % 64)))
]

length-zeros : (n : ℕ) → length (zeros n) ≡ n
unfolding zeros
length-zeros zero = refl
length-zeros (suc n) = omega (arith, length-zeros n)

pub length-words_for : (total : ℕ) → length (words_for total) ≡ (total + 63) / 64
unfolding words_for
length-words_for total = length-zeros ((total + 63) / 64)

-- An index below the total has its word.
pub has_seen_in_range :
    (seen : List ℕ) (index total : ℕ)
    → length seen ≡ (total + 63) / 64
    → index < total
    → (b : Bool) × (has_seen seen index ≡ some b)
unfolding has_seen
has_seen_in_range seen index total sized h =
    let (word, e) = get_elem?_in_range seen (index / 64) (omega arith) in
    (test_bit word (index % 64), rw (e, has_seen) refl)

pub has_seen-mark_same :
    (seen : List ℕ) (index : ℕ) {b : Bool}
    → has_seen seen index ≡ some b
    → has_seen (mark_seen seen index) index ≡ some true
unfolding has_seen mark_seen
has_seen-mark_same seen index h = elim (Option-cases (get_elem? seen (index / 64))) [
  | inl e ↦ absurd (cc (h, e))
  | inr (word, e) ↦ rw (
    e,
    has_seen,
    mark_seen,
    get_elem?-set_same seen (index / 64) (set_bit word (index % 64))
        (get_elem?-lt seen (index / 64) e),
    test-set_same word (index % 64),
  )
]

pub has_seen-mark_other :
    (seen : List ℕ) (index other : ℕ)
    → index ≢ other
    → has_seen (mark_seen seen index) other ≡ has_seen seen other
unfolding has_seen mark_seen
has_seen-mark_other seen index other h = elim (Option-cases (get_elem? seen (index / 64))) [
  | inl e ↦ rw (e, has_seen, mark_seen) refl
  | inr (word, e) ↦ elim (ℕ_discrete (index / 64) (other / 64)) [
    | no apart ↦
        rw
          (
            e,
            has_seen,
            mark_seen,
            get_elem?-set_other seen (index / 64) (other / 64) (set_bit word (index % 64)) apart,
          )
          refl
    | yes same ↦
        let bits : index % 64 ≢ other % 64 = λ e. h (omega arith) in
        rw (
          e,
          has_seen,
          mark_seen,
          ← same,
          get_elem?-set_same seen (index / 64) (set_bit word (index % 64))
              (get_elem?-lt seen (index / 64) e),
          e,
          test-set_other word (index % 64) (other % 64) bits,
        )
  ]
]

-- What was seen stays seen.
pub has_seen-mark_seen :
    (seen : List ℕ) (index other : ℕ)
    → has_seen seen other ≡ some true
    → has_seen (mark_seen seen index) other ≡ some true
has_seen-mark_seen seen index other h = elim (ℕ_discrete index other) [
  | yes e ↦
      rw (← e) (has_seen-mark_same seen index (subst (λ i. has_seen seen i ≡ some true) (sym e) h))
  | no ne ↦ rw (has_seen-mark_other seen index other ne) h
]
