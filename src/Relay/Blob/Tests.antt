-- ===== src/Relay/Blob/Tests.antt =====
-- The theorems on the blob store (relay/src/blob.rs, relay/src/blob_routes.rs) at small stores.
use clip_bridge.Core.Crypto.{Bytes, sha256_hex, hex_digest, hex_nibble}
use clip_bridge.Prelude.Assoc
use clip_bridge.Prelude.Assoc.{
  Assoc, IsMap, is_some, lookup-remove, lookup-insert, lookup-insert_self, remove-IsMap,
  insert-IsMap, All-remove, All-lookup, length-remove, remove_missing, length-remove_found,
}
use clip_bridge.Prelude.{
  ◌+◌, ◌≤◌, ◌⊎◌, ℕ, zero, suc, ◌%◌, ◌≡◌, ◌⊎◌, refl, none, some, [], ◌∷◌, arith, list_eq, nat_eq,
  option_eq, list_beq, retain, codes,
}
use clip_bridge.Relay.Blob.{
  remove_all, expired_keys, BlobKey, key_eq, key_beq, BlobStore, ok, new, remove, remove_all,
  evict_loop, oldest, over_budget, expired_keys, evict_until_room_for, put, get,
}
use clip_bridge.Relay.Blob.Invariant.{IsValid, new-IsValid}
use clip_bridge.Relay.Blob.Enough.{IsNeeded, evict_until_room_for_lem}
use clip_bridge.Relay.Blob.Put.{put-IsValid}
use clip_bridge.Relay.Blob.Reads.{gets, get-gets, put_expired}

-- A stand-in for SHA-256: the body itself, cut or filled up to 32 bytes.
abbrev pad : ℕ → Bytes → Bytes
pad zero b = []
pad (suc n) [] = 0 ∷ pad n []
pad (suc n) (x ∷ b) = (x % 256) ∷ pad n b

abbrev digest : Bytes → Bytes
digest = pad 32

abbrev key_of : Bytes → BlobKey
key_of body = record { group_id = codes "g"; sha256_hex = sha256_hex digest body }

abbrev body_a : Bytes
body_a = 1 ∷ 2 ∷ 3 ∷ 4 ∷ []

abbrev body_b : Bytes
body_b = 5 ∷ 6 ∷ 7 ∷ 8 ∷ []

abbrev body_c : Bytes
body_c = 9 ∷ 9 ∷ 9 ∷ 9 ∷ []

abbrev fresh : BlobStore
fresh = new 8 60 8

fresh-IsValid : IsValid digest fresh
fresh-IsValid = new-IsValid digest 8 60 8 (omega arith)

-- Two bodies of four bytes, at the budget of eight.
abbrev full : BlobStore
full = record {
  inner =
      (key_of body_b, record { inserted_at = 2; bytes = body_b })
      ∷ (key_of body_a, record { inserted_at = 1; bytes = body_a })
      ∷ [];
  total_bytes = 8;
  budget_bytes = 8;
  ttl = 60;
  max_blob_bytes = 8;
}

full-IsMap : IsMap full.inner
unfolding Assoc.lookup key_beq list_beq sha256_hex hex_digest hex_nibble
full-IsMap = (refl, (refl, tt))

full-IsValid : IsValid digest full
unfolding Assoc.lookup key_beq list_beq sha256_hex hex_digest hex_nibble
full-IsValid = record {
  distinct = full-IsMap;
  counted = refl;
  hashed = (refl, (refl, tt));
  wide = omega arith;
  bounded = omega arith;
}

-- The third body pushes the oldest one out.
third_evicts_first : (get 4 (key_of body_a) (put digest 3 3 (key_of body_c) body_c full).1).0 ≡ none
unfolding get put evict_until_room_for expired_keys remove_all evict_loop over_budget oldest remove
    Assoc.lookup Assoc.remove Assoc.insert retain key_beq list_beq sha256_hex hex_digest hex_nibble
third_evicts_first = refl

put-IsValid_example : IsValid digest (put digest 3 3 (key_of body_c) body_c full).1
put-IsValid_example = put-IsValid digest 3 3 (key_of body_c) body_c full full-IsValid

get-gets_example :
    (get 40
      (key_of body_a)
      (gets ((20, key_of body_b) ∷ []) (put digest 3 3 (key_of body_a) body_a fresh).1)).0
    ≡ some body_a
unfolding new Assoc.lookup put list_beq sha256_hex hex_digest hex_nibble
get-gets_example =
    get-gets digest 3 3 40 ((20, key_of body_b) ∷ []) (key_of body_a) body_a fresh fresh-IsValid
      refl refl (omega arith, tt)

put_expired_example :
    let k = key_of body_a in
    (put digest 70 70 k body_a full ≡ (ok, full)) × ((get 71 k full).0 ≡ none)
unfolding Assoc.lookup key_beq list_beq sha256_hex hex_digest hex_nibble
put_expired_example =
    put_expired digest 70 70 71 (key_of body_a) body_a full
      (record { inserted_at = 1; bytes = body_a }) (omega arith) refl refl (omega arith)
      (omega arith)

evict_until_room_for_lem_example :
    let t = evict_until_room_for 3 4 full in
    let live = remove_all (expired_keys 3 full) full in
    ((t.total_bytes + 4 ≤ full.budget_bytes) ⊎ (t.inner ≡ []))
    × ((t ≡ live) ⊎ IsNeeded digest full.budget_bytes 4 live t)
evict_until_room_for_lem_example =
    evict_until_room_for_lem digest 3 4 full full-IsValid (omega arith)
