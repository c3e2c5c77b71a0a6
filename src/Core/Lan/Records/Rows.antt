-- ===== src/Core/Lan/Records/Rows.antt =====
-- The rows of `peer_records` (core/src/lan.rs): which devices they are of.
use clip_bridge.Prelude.Assoc
use clip_bridge.Prelude.Assoc.{
  Assoc, IsMap, is_some, lookup-remove, lookup-insert, lookup-insert_self, remove-IsMap,
  insert-IsMap, All-remove, All-remove_other, All-lookup, length-remove, remove_missing,
  length-remove_found,
}
use clip_bridge.Prelude.{
  not, retain, eq_symm, eq_iff, ◌∙◌, ap, ◌&&◌, if_both, ℕ, ◌≡◌, refl, Bool, false, ◌||◌, List, [],
  ◌∷◌, map, arith, ◌==◌, list_eq, nat_eq, option_eq, any, contains, Distinct, Text,
}
use clip_bridge.Core.Lan.Peers.{PeerAddrEntry}
use clip_bridge.Core.Lan.Records.{
  Registry, LanPeerRecord, or_insert, insert_entry, sort_entries, names_loop, count_candidates,
  devices_loop, add_named, record_of, is_above, insert_record, sorted_rows, peer_records,
  lan_peer_records,
}

unfoldable pub device_ids : List LanPeerRecord → List Text
device_ids rs = map (λ r. r.device_id) rs

-- Whether a device has a session.
unfoldable pub is_registered : Text → Registry → Bool
is_registered did peers = any (λ e. e.1.0 == did) peers

-- Whether a device has an entry of addresses.
unfoldable pub has_addresses : Text → Assoc Text PeerAddrEntry → Bool
has_addresses did addrs = any (λ e. e.1.device_id == did) addrs

has-or_insert {ℓ} :
    {V : Type ℓ} (k did : Text) (v : V) (m : Assoc Text V)
    → is_some (Assoc.lookup did (or_insert k v m)) ≡ (k == did || is_some (Assoc.lookup did m))
unfolding or_insert
has-or_insert k did v m = ground (arith, lookup-insert k did v m, eq_iff k did)

or_insert-IsMap {ℓ} :
    {V : Type ℓ} (k : Text) (v : V) (m : Assoc Text V) → IsMap m → IsMap (or_insert k v m)
unfolding or_insert
or_insert-IsMap k v m h = if_both IsMap (is_some (Assoc.lookup k m)) _ _ h (insert-IsMap k v m h)

is_registered-insert_entry :
    (did : Text) (e : Text × (Text × Text)) (es : Registry)
    → is_registered did (insert_entry e es) ≡ (e.1.0 == did || is_registered did es)
unfolding is_registered insert_entry any
is_registered-insert_entry did e [] = refl
is_registered-insert_entry did e (f ∷ es) = ground (arith, is_registered-insert_entry did e es)

is_registered-sort_entries :
    (did : Text) (es : Registry) → is_registered did (sort_entries es) ≡ is_registered did es
unfolding is_registered sort_entries any
is_registered-sort_entries did [] = refl
is_registered-sort_entries did (e ∷ es) =
    is_registered-insert_entry did e (sort_entries es)
    ∙ ap (λ b. e.1.0 == did || b) (is_registered-sort_entries did es)

has-names_loop :
    (did : Text) (es : Registry) (names : Assoc Text Text)
    → is_some (Assoc.lookup did (names_loop es names))
      ≡ (is_registered did es || is_some (Assoc.lookup did names))
unfolding names_loop is_registered any
has-names_loop did [] names = refl
has-names_loop did (e ∷ es) names = ground (
  arith,
  has-names_loop did es (or_insert e.1.0 e.1.1 names),
  has-or_insert e.1.0 did e.1.1 names,
)

has-insert {ℓ} :
    {V : Type ℓ} (k did : Text) (v : V) (m : Assoc Text V)
    → is_some (Assoc.lookup did (Assoc.insert k v m)) ≡ (k == did || is_some (Assoc.lookup did m))
has-insert k did v m = ground (arith, lookup-insert k did v m)

has-count_candidates :
    (did : Text) (names : Assoc Text Text) (e : PeerAddrEntry) (m : Assoc Text (Text × ℕ))
    → is_some (Assoc.lookup did (count_candidates names e m))
      ≡ (e.device_id == did || is_some (Assoc.lookup did m))
unfolding count_candidates
has-count_candidates did names e m = has-insert e.device_id did _ m

has-devices_loop :
    (did : Text) (names : Assoc Text Text) (addrs : Assoc Text PeerAddrEntry)
    (m : Assoc Text (Text × ℕ))
    → is_some (Assoc.lookup did (devices_loop names addrs m))
      ≡ (has_addresses did addrs || is_some (Assoc.lookup did m))
unfolding devices_loop has_addresses any
has-devices_loop did names [] m = refl
has-devices_loop did names ((k, e) ∷ addrs) m = ground (
  arith,
  has-devices_loop did names addrs (count_candidates names e m),
  has-count_candidates did names e m,
)

has-add_named :
    (did : Text) (names : Assoc Text Text) (m : Assoc Text (Text × ℕ))
    → is_some (Assoc.lookup did (add_named names m))
      ≡ (is_some (Assoc.lookup did names) || is_some (Assoc.lookup did m))
unfolding add_named Assoc.lookup
has-add_named did [] m = refl
has-add_named did ((k, name) ∷ names) m =
    ground
      (arith, has-add_named did names (or_insert k (name, 0) m), has-or_insert k did (name, 0) m)

devices_loop-IsMap :
    (names : Assoc Text Text) (addrs : Assoc Text PeerAddrEntry) (m : Assoc Text (Text × ℕ))
    → IsMap m
    → IsMap (devices_loop names addrs m)
unfolding devices_loop count_candidates
devices_loop-IsMap names [] m h = h
devices_loop-IsMap names ((k, e) ∷ addrs) m h =
    devices_loop-IsMap names addrs (count_candidates names e m) (insert-IsMap e.device_id _ m h)

add_named-IsMap :
    (names : Assoc Text Text) (m : Assoc Text (Text × ℕ)) → IsMap m → IsMap (add_named names m)
unfolding add_named
add_named-IsMap [] m h = h
add_named-IsMap ((k, name) ∷ names) m h =
    add_named-IsMap names (or_insert k (name, 0) m) (or_insert-IsMap k (name, 0) m h)

contains-insert_record :
    (did : Text) (r : LanPeerRecord) (rs : List LanPeerRecord)
    → contains (device_ids (insert_record r rs)) did
      ≡ (r.device_id == did || contains (device_ids rs) did)
unfolding device_ids insert_record contains
contains-insert_record did r [] = refl
contains-insert_record did r (s ∷ rs) = ground (arith, contains-insert_record did r rs)

Distinct-insert_record :
    (r : LanPeerRecord) (rs : List LanPeerRecord)
    → Distinct (device_ids rs)
    → contains (device_ids rs) r.device_id ≡ false
    → Distinct (device_ids (insert_record r rs))
unfolding device_ids insert_record contains
Distinct-insert_record r [] d new = (refl, tt)
Distinct-insert_record r (s ∷ rs) d new =
    if_both (λ (l : List LanPeerRecord). Distinct (device_ids l)) (is_above s r) _ _
      (
        ground (
          arith,
          contains-insert_record s.device_id r rs,
          d.0,
          new,
          eq_symm s.device_id r.device_id,
        ),
        Distinct-insert_record r rs d.1 (ground (arith, new)),
      )
      (new, d)

contains-sorted_rows :
    (did : Text) (m : Assoc Text (Text × ℕ))
    → contains (device_ids (sorted_rows m)) did ≡ is_some (Assoc.lookup did m)
unfolding sorted_rows device_ids contains Assoc.lookup record_of
contains-sorted_rows did [] = refl
contains-sorted_rows did ((k, v) ∷ m) = ground (
  arith,
  contains-insert_record did (record_of (k, v)) (sorted_rows m),
  contains-sorted_rows did m,
)

Distinct-sorted_rows : (m : Assoc Text (Text × ℕ)) → IsMap m → Distinct (device_ids (sorted_rows m))
unfolding sorted_rows record_of device_ids
Distinct-sorted_rows [] h = tt
Distinct-sorted_rows ((k, v) ∷ m) h =
    Distinct-insert_record (record_of (k, v)) (sorted_rows m) (Distinct-sorted_rows m h.1)
      (contains-sorted_rows k m ∙ ap is_some h.0)

peer_records-one_row :
    (peers : Registry) (addrs : Assoc Text PeerAddrEntry)
    → Distinct (device_ids (peer_records peers addrs))
      × ((did : Text)
          → contains (device_ids (peer_records peers addrs)) did
            ≡ (is_registered did peers || has_addresses did addrs))
unfolding peer_records Assoc.lookup
peer_records-one_row peers addrs =
    let names = names_loop (sort_entries peers) [] in
    let devices = devices_loop names addrs [] in
    (
      Distinct-sorted_rows (add_named names devices)
          (add_named-IsMap names devices (devices_loop-IsMap names addrs [] tt)),
      λ did. ground (
        arith,
        contains-sorted_rows did (add_named names devices),
        has-add_named did names devices,
        has-devices_loop did names addrs [],
        has-names_loop did (sort_entries peers) [],
        is_registered-sort_entries did peers,
      ),
    )

module _ (p : LanPeerRecord → Bool) (self : Text)
    (other : (r : LanPeerRecord) → p r ≡ not (r.device_id == self)) where
  contains-retain :
      (did : Text) (rs : List LanPeerRecord)
      → contains (device_ids (retain p rs)) did
        ≡ (not (self == did) && contains (device_ids rs) did)
  unfolding device_ids contains retain
  contains-retain did [] = ground arith
  contains-retain did (r ∷ rs) = ground (
    arith,
    other r,
    contains-retain did rs,
    eq_iff r.device_id self,
    eq_iff r.device_id did,
    eq_iff self did,
    eq_symm r.device_id self,
  )

  Distinct-retain :
      (rs : List LanPeerRecord) → Distinct (device_ids rs) → Distinct (device_ids (retain p rs))
  unfolding device_ids retain
  Distinct-retain [] d = tt
  Distinct-retain (r ∷ rs) d =
      if_both (λ (l : List LanPeerRecord). Distinct (device_ids l)) (p r) _ _
        (ground (arith, contains-retain r.device_id rs, d.0), Distinct-retain rs d.1)
        (Distinct-retain rs d.1)

-- The host is told of each device once, and of exactly the devices other than its own that have a
-- session or an entry of addresses.
pub lan_peer_records-one_row :
    (self : Text) (peers : Registry) (addrs : Assoc Text PeerAddrEntry)
    → Distinct (device_ids (lan_peer_records self peers addrs))
      × ((did : Text)
          → contains (device_ids (lan_peer_records self peers addrs)) did
            ≡ (not (self == did) && (is_registered did peers || has_addresses did addrs)))
unfolding lan_peer_records
lan_peer_records-one_row self peers addrs =
    let rows = peer_records peers addrs in
    let (once, which) = peer_records-one_row peers addrs in
    let is_other : LanPeerRecord → Bool = λ r. not (r.device_id == self) in
    (
      Distinct-retain is_other self (λ r. refl) rows once,
      λ did.
          contains-retain is_other self (λ r. refl) did rows
          ∙ ap (λ b. not (self == did) && b) (which did),
    )
