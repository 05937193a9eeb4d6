-- ===== src/Admission/Store.antt =====
-- internal/admission/store.go: the loaded credentials, the per-boot index of each, and the file's
-- checks. The decoding of base64 is a parameter.
use dee_relay.Base.{
  ℕ, ◌+◌, ◌%◌, ◌^◌, Bool, true, false, not, ◌||◌, Option, none, some, List, [], ◌∷◌, String,
  string_key, nat_key, ◌/=◌, if◌then◌else◌, length, ℤ, pos, negsuc,
}
use dee_relay.Map.{Map, lookup, get_or, has, insert}
use dee_relay.Model.{Time, after, is_zero}
use dee_relay.Admission.Types.{
  unknown_credential, expired_credential, Result, ok, err, Credential, Grant,
}

pub record Store : Type 0 where
  pub credentials : Map String Credential
  pub index : Map String ℕ
  pub next_index : ℕ
  pub loaded : ℕ

unfoldable pub new_store : Store
new_store = record { credentials = []; index = []; next_index = 0; loaded = 0 }

unfoldable pub find : Store → String → Time → Result Grant
find s id now = elim (lookup id s.credentials) [
  | none ↦ err unknown_credential
  | some credential ↦
      if not (after credential.terms.not_after now)
      then err expired_credential
      else ok (record { index = get_or 0 id s.index; id = id; terms = credential.terms })
]

-- The index that a credential gets when it is first seen; `nextIndex` is a uint32.
unfoldable pub give_index : Store → String → Store
give_index s id =
    if has id s.index
    then s
    else let next = (s.next_index + 1) % 2 ^ 32 in
      record s { index = insert id next s.index; next_index = next }

-- The loop of `Replace`: the new map, and the store with the indexes.
unfoldable pub load :
    List Credential → Map String Credential → Store → Map String Credential × Store
unfolding give_index
load [] next s = (next, s)
load (credential ∷ rest) next s =
    load rest (insert credential.id credential next) (give_index s credential.id)

unfoldable pub replace : Store → List Credential → Store
unfolding load
replace s credentials =
    let (next, s') = load credentials [] s in record s' { credentials = next; loaded = length next }

unfoldable pub count : Store → ℕ
count s = s.loaded

unfoldable pub is_negative : ℤ → Bool
is_negative (pos n) = false
is_negative (negsuc n) = true

-- What `validateCredential` refuses, without the words of its errors.
unfoldable pub is_invalid : (String → Option (List ℕ)) → Credential → Bool
unfolding is_negative is_zero
is_invalid decode credential = elim (decode credential.id) [
  | none ↦ true
  | some key ↦
      length key /= 32
      || is_zero credential.terms.not_after
      || is_negative credential.terms.queue_slots
      || is_negative credential.terms.attachment_bytes
      || is_negative credential.terms.concurrent_transfers
      || is_negative credential.terms.transit_bytes_per_day
      || is_negative credential.terms.max_per_pair
]

-- The loop of `ParseCredentials` over the decoded entries; `seen` is the ids before them.
unfoldable pub check_all : (String → Option (List ℕ)) → List Credential → Map String Bool → Bool
unfolding is_invalid
check_all decode [] seen = true
check_all decode (credential ∷ rest) seen =
    let others = check_all decode rest (insert credential.id true seen) in
    if is_invalid decode credential
    then false
    else if get_or false credential.id seen
    then false
    else others
