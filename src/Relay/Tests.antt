-- ===== src/Relay/Tests.antt =====
-- The theorems on the relay's handlers at small inputs (relay/src/blob_routes.rs, relay/src/hub.rs,
-- relay/src/ws.rs).
use clip_bridge.Core.Crypto.{Bytes, sha256_hex}
use clip_bridge.Core.Net.{IpAddr, v4, v6, ip_eq, ip_beq, SocketAddr, AddrText}
use clip_bridge.Core.Protocol.{LanCandidate, RecentClip, join, publish, fetch_recent, lan_advertise}
use clip_bridge.Prelude.Assoc
use clip_bridge.Prelude.Assoc.{
  Assoc, is_some, lookup-remove, lookup-insert, lookup-insert_self, remove-IsMap, insert-IsMap,
  All-remove, All-lookup, length-remove, remove_missing, length-remove_found,
}
use clip_bridge.Prelude.{
  String, ℕ, ◌≡◌, refl, Option, none, some, List, [], ◌∷◌, arith, eq_iff, list_eq, nat_eq,
  option_eq, list_beq, length, All, retain, Distinct, Text, codes, contains, any, ◌==◌, ◌&&◌,
}
use clip_bridge.Relay.Blob
use clip_bridge.Relay.Blob.{BlobStore}
use clip_bridge.Relay.Blob.Invariant.{new-IsValid}
use clip_bridge.Relay.Routes.{get_blobs, no_content, octets, put_blob, get_blob, get_blob-put_blob}
use clip_bridge.Relay.Candidates.{mutual_subnet, sanitize_lan_advertise, candidates_for_receiver}
use clip_bridge.Relay.Candidates.Laws.{
  IsSanitized, IsSanitizedNetworks, IsForwarded, sanitize_lan_advertise-IsSanitized,
  candidates_for_receiver-IsForwarded,
}
use clip_bridge.Relay.Hub
use clip_bridge.Relay.Hub.{
  Hub, RvConn, Conns, latest_by_device, snapshot, rendezvous_upsert, rendezvous_remove, group_of,
  recent_ttl,
}
use clip_bridge.Relay.Hub.History.{Call, publishes, fetches, serve}
use clip_bridge.Relay.Hub.Recent.{recent-serve}
use clip_bridge.Relay.Hub.Snapshots.{device_ids}
use clip_bridge.Relay.Hub.Told.{entry_of, telling, newest, snapshot-newest}
use clip_bridge.Relay.Hub.Slots.{slot, slot-rendezvous_upsert}
use clip_bridge.Relay.Ws.{Session, message, handle_text, finish, in_group}
use clip_bridge.Relay.Ws.Access.{IsRefusal, handle_text-IsRefusal}
use clip_bridge.Relay.Ws.Closing.{
  OwnSlots, handle_text-OwnSlots, finish-OwnSlots, finish_leaves_slot,
}

abbrev digest : Bytes → Bytes
digest b =
    7
    ∷ 7
    ∷ 7
    ∷ 7
    ∷ 7
    ∷ 7
    ∷ 7
    ∷ 7
    ∷ 7
    ∷ 7
    ∷ 7
    ∷ 7
    ∷ 7
    ∷ 7
    ∷ 7
    ∷ 7
    ∷ 7
    ∷ 7
    ∷ 7
    ∷ 7
    ∷ 7
    ∷ 7
    ∷ 7
    ∷ 7
    ∷ 7
    ∷ 7
    ∷ 7
    ∷ 7
    ∷ 7
    ∷ 7
    ∷ 7
    ∷ length b
    ∷ []

abbrev body : Bytes
body = 1 ∷ 2 ∷ 3 ∷ []

abbrev store : BlobStore
store = Blob.new 1024 60 512

get_blob-put_blob_example :
    let name = sha256_hex digest body in
    let (answer, t) = put_blob digest 5 5 (codes "g") name body store in
    (answer ≡ no_content)
    × ((get_blob 6 (codes "g") name (get_blobs ((5, codes "g", name) ∷ []) t)).0 ≡ octets body)
unfolding Blob.new Assoc.lookup
get_blob-put_blob_example =
    get_blob-put_blob digest 5 5 6 ((5, codes "g", sha256_hex digest body) ∷ []) (codes "g") body
      store (new-IsValid digest 1024 60 512 (omega arith)) refl (omega arith) (omega arith) refl
      (omega arith, tt)

-- A stand-in for the standard library's texts of addresses: the number and the port.
abbrev read : Text → Option SocketAddr
read (x ∷ p ∷ []) = some (record { ip = v4 x; port = p })
read (x ∷ p ∷ six ∷ []) = some (record { ip = v6 x; port = p })
read _ = none

abbrev write_ip : ℕ → IpAddr → Text
write_ip p (v4 x) = x ∷ p ∷ []
write_ip p (v6 x) = x ∷ p ∷ 6 ∷ []

abbrev texts : AddrText
texts = record { parse = read; to_string = λ a. write_ip a.port a.ip }

-- 10.0.0.1 and 10.0.0.2, port 5000.
abbrev addr_a : Text
addr_a = 167772161 ∷ 5000 ∷ []

abbrev addr_b : Text
addr_b = 167772162 ∷ 5000 ∷ []

abbrev network : Text → LanCandidate
network a = record { addr = a; prefix_len = 24 }

sanitize_lan_advertise-IsSanitized_example :
    let (kept, networks) =
      sanitize_lan_advertise texts (addr_a ∷ addr_b ∷ addr_a ∷ [] ∷ []) (network addr_a ∷ []) in
    IsSanitized texts kept × IsSanitizedNetworks texts kept networks
sanitize_lan_advertise-IsSanitized_example =
    sanitize_lan_advertise-IsSanitized texts (addr_a ∷ addr_b ∷ addr_a ∷ [] ∷ [])
      (network addr_a ∷ [])

candidates_for_receiver-IsForwarded_example :
    let out =
      candidates_for_receiver texts (network addr_a ∷ []) (addr_b ∷ []) (network addr_b ∷ []) in
    All (IsForwarded texts (network addr_a ∷ []) (addr_b ∷ []) (network addr_b ∷ [])) out
    × Distinct out
    × ((s : Text)
        → contains out s
          ≡ any
              (λ n.
                n.addr == s
                && (contains (addr_b ∷ []) n.addr
                    && any (λ own. mutual_subnet texts own n) (network addr_a ∷ [])))
              (network addr_b ∷ []))
candidates_for_receiver-IsForwarded_example =
    candidates_for_receiver-IsForwarded texts (network addr_a ∷ []) (addr_b ∷ [])
      (network addr_b ∷ []) refl refl

abbrev clip_at : ℕ → RecentClip
clip_at n = record { ciphertext = n ∷ []; nonce = []; ts = n; sender_device_id = codes "A" }

abbrev calls : List (Text × Call)
calls =
    (codes "g", publishes 1 (clip_at 1))
    ∷ (codes "g", publishes 2 (clip_at 2))
    ∷ (codes "h", publishes 2 (clip_at 9))
    ∷ (codes "g", fetches 3)
    ∷ (codes "g", publishes 4 (clip_at 4))
    ∷ (codes "g", publishes 5 (clip_at 5))
    ∷ []

recent-serve_example :
    (Hub.recent 6 (codes "g") (serve calls Hub.new)).0 ≡ clip_at 2 ∷ clip_at 4 ∷ clip_at 5 ∷ []
unfolding retain list_beq
recent-serve_example = recent-serve (codes "g") calls 6 (omega arith)

abbrev conn : String → Text → ℕ → RvConn
conn did a mailbox = record {
  device_id = codes did;
  device_name = codes did;
  candidates = a ∷ [];
  candidate_networks = [];
  tx = mailbox;
}

-- Connection 1 is the observer's; device D has connections 2 and 3.
abbrev conns : Conns
conns = (1, conn "O" addr_a 11) ∷ (2, conn "D" addr_a 12) ∷ (3, conn "D" addr_b 13) ∷ []

snapshot-newest_example :
    let c = conn "O" addr_a 11 in
    (entry_of (codes "D") (snapshot texts 1 c conns)
      ≡ telling texts c (codes "D") (newest 1 (codes "D") conns))
    × Distinct (device_ids (snapshot texts 1 c conns))
snapshot-newest_example = snapshot-newest texts 1 (conn "O" addr_a 11) conns (codes "D")

abbrev egress : IpAddr
egress = v4 1

abbrev with_four : Hub
with_four = (rendezvous_upsert texts (codes "g") egress 4 (conn "E" addr_a 15) Hub.new).0

-- Connection 4, joined to group g as device E, its slot in the hub.
abbrev member : Session
member = record {
  egress = egress;
  conn_id = 4;
  mailbox = 15;
  group = some (codes "g");
  device_id = some (codes "E");
  rx = some (codes "g");
  rv_group = some (codes "g");
  last_seen = 0;
}

handle_text-IsRefusal_example :
    IsRefusal member with_four
      (handle_text texts 7 (message (publish (codes "h") (1 ∷ []) [] 3)) member with_four)
unfolding in_group list_beq
handle_text-IsRefusal_example =
    handle_text-IsRefusal texts 7 (publish (codes "h") (1 ∷ []) [] 3) (codes "h") member with_four
      refl refl

four_here : slot (codes "g") egress 4 with_four ≡ some (conn "E" addr_a 15)
unfolding list_beq ip_beq
four_here =
    slot-rendezvous_upsert texts (codes "g") (codes "g") egress egress 4 4 (conn "E" addr_a 15)
      Hub.new

with_four-OwnSlots : OwnSlots member with_four
unfolding Hub.new group_of Assoc.lookup
with_four-OwnSlots g e apart = ground (
  arith,
  slot-rendezvous_upsert texts (codes "g") g egress e 4 4 (conn "E" addr_a 15) Hub.new,
  eq_iff (codes "g") g,
  eq_iff egress e,
)

handle_text-OwnSlots_example :
    let r = handle_text texts 7 (message (fetch_recent (codes "g"))) member with_four in
    OwnSlots r.session r.hub
handle_text-OwnSlots_example =
    handle_text-OwnSlots texts 7 (message (fetch_recent (codes "g"))) member with_four tt
      with_four-OwnSlots

finish-OwnSlots_example : slot (codes "g") egress 4 (finish texts member with_four).0 ≡ none
finish-OwnSlots_example =
    finish-OwnSlots texts member with_four with_four-OwnSlots (codes "g") egress

finish_leaves_slot_example :
    let r = handle_text texts 7 (message (join (codes "h") (codes "E"))) member with_four in
    let q =
      handle_text texts 8
        (message (lan_advertise (codes "h") (codes "E") [] (addr_a ∷ []) []))
        r.session
        r.hub in
    slot (codes "g") egress 4 (finish texts q.session q.hub).0 ≡ some (conn "E" addr_a 15)
finish_leaves_slot_example =
    finish_leaves_slot texts 7 8 (codes "g") (codes "h") (codes "E") [] (addr_a ∷ []) [] member
      with_four (conn "E" addr_a 15) four_here (λ e. ground (arith, e))
