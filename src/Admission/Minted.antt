-- ===== src/Admission/Minted.antt =====
-- The code of some bytes, typed again and normalized, is theirs alone.
use dee_relay.Base.{
  ℕ, zero, suc, ◌+◌, ◌*◌, ◌%◌, ◌^◌, ◌≤◌, ◌≡◌, refl, ap, sym, ◌∙◌, some, List, [], ◌∷◌, nat_key,
  arith, length,
}
use dee_relay.Admission.Codes.{encode, new_code, normalize_code}
use dee_relay.Admission.Retyped.{Retypes, normalize_code-minted}
use dee_relay.Admission.Digits.{code_number, byte_number, pad, AreBytes, encode-code_number}

pad-length :
    (bits : ℕ) (raw other : List ℕ) → length raw ≡ length other → pad bits raw ≡ pad bits other
unfolding pad
pad-length bits [] [] e = refl
pad-length bits [] (c ∷ other) e = absurd (omega (arith, e))
pad-length bits (b ∷ raw) [] e = absurd (omega (arith, e))
pad-length bits (b ∷ raw) (c ∷ other) e = pad-length ((bits + 8) % 5) raw other (omega (arith, e))

pad_few : (bits : ℕ) (raw : List ℕ) → bits ≤ 4 → pad bits raw ≤ 4
unfolding pad
pad_few bits [] h = ground arith
pad_few bits (b ∷ raw) h = pad_few ((bits + 8) % 5) raw (omega arith)

cancel : (p m n : ℕ) → p ≤ 4 → m * 2 ^ p ≡ n * 2 ^ p → m ≡ n
cancel zero m n few e = omega (arith, e)
cancel (suc zero) m n few e = omega (arith, e)
cancel (suc (suc zero)) m n few e = omega (arith, e)
cancel (suc (suc (suc zero))) m n few e = omega (arith, e)
cancel (suc (suc (suc (suc zero)))) m n few e = omega (arith, e)
cancel (suc (suc (suc (suc (suc p))))) m n few e = absurd (omega (arith, few))

byte_number-injective :
    (v w : ℕ) (raw other : List ℕ)
    → length raw ≡ length other
    → AreBytes raw
    → AreBytes other
    → byte_number v raw ≡ byte_number w other
    → (v ≡ w) × (raw ≡ other)
unfolding byte_number
byte_number-injective v w [] [] len h k e = (e, refl)
byte_number-injective v w [] (c ∷ other) len h k e = absurd (omega (arith, len))
byte_number-injective v w (b ∷ raw) [] len h k e = absurd (omega (arith, len))
byte_number-injective v w (b ∷ raw) (c ∷ other) len h k e =
    let (top, rest) =
      byte_number-injective (v * 256 + b) (w * 256 + c) raw other (omega (arith, len)) h.1 k.1 e in
    let byte : b ≡ c = omega (arith, top, h.0, k.0) in
    (omega (arith, top, h.0, k.0), ap (λ x. x ∷ raw) byte ∙ ap (λ xs. c ∷ xs) rest)

encode-injective :
    (raw other : List ℕ)
    → length raw ≡ length other
    → AreBytes raw
    → AreBytes other
    → encode 0 0 raw ≡ encode 0 0 other
    → raw ≡ other
encode-injective raw other len h k e =
    (byte_number-injective 0 0 raw other len h k (
      cancel (pad 0 other) (byte_number 0 raw) (byte_number 0 other) (pad_few 0 other (omega arith))
        (ap (λ p. byte_number 0 raw * 2 ^ p) (sym (pad-length 0 raw other len))
          ∙ sym (encode-code_number 0 raw 0 0 0 (omega arith) refl h)
          ∙ ap (code_number 0) e
          ∙ encode-code_number 0 other 0 0 0 (omega arith) refl k))).1

-- A minted code that is typed again, each letter as it is, small, or as the letter it is mistaken for,
-- with spaces, hyphens and the like anywhere, normalizes to the code; and where two such texts, of codes
-- minted from as many bytes, normalize alike, the bytes are the same.
pub normalize_code-new_code :
    (raw other code other_code typed other_typed : List ℕ)
    → length raw ≡ length other
    → AreBytes raw
    → AreBytes other
    → new_code (some raw) ≡ some code
    → new_code (some other) ≡ some other_code
    → Retypes typed code
    → Retypes other_typed other_code
    → normalize_code typed ≡ normalize_code other_typed
    → (normalize_code typed ≡ code) × (raw ≡ other)
unfolding new_code
normalize_code-new_code raw other code other_code typed other_typed len h k e f r q alike =
    let back = normalize_code-minted raw code typed e r in
    let other_back = normalize_code-minted other other_code other_typed f q in
    let minted : encode 0 0 raw ≡ code = cc in
    let other_minted : encode 0 0 other ≡ other_code = cc in
    (
      back,
      encode-injective raw other len h k
          (minted ∙ sym back ∙ alike ∙ other_back ∙ sym other_minted),
    )
