-- ===== src/Core/Lan/Session/Sorting.antt =====
-- What `run_peer` of core/src/lan.rs makes of a connection: a control link, which is registered, or
-- the answer to a blob requester or to a file offer, which is not.
use clip_bridge.Core.Crypto.{Bytes}
use clip_bridge.Core.FileTransfer.{FileOffer, FileTransferError}
use clip_bridge.Core.FileTransfer.Incoming.{Files, Disk}
use clip_bridge.Core.Lan.{LanMessage, hello, blob_request, file_offer, io_error}
use clip_bridge.Core.Lan.BlobCache.{get}
use clip_bridge.Core.Lan.Blobs.{fetch_loop, fetch_loop-serve_blob}
use clip_bridge.Core.Lan.Session.{
  Read, got, read_failed, timed_out, Handshake, refused, self_connect, shaken, expects, handshake,
  quiet, own_hello, control_link, offered, sort_connection, run_peer, PeerRunContext, Connection,
  Report, display_name, returned, returned_err,
}
use clip_bridge.Prelude.{
  ℕ, ◌≡◌, ◌⊎◌, inl, inr, refl, subst, true, false, not, Option, none, some, [], ◌∷◌, arith, ltb,
  if◌then◌else◌, ◌==◌, list_eq, nat_eq, option_eq, length, Text, Bool-cases, if_both,
}

handshake-shaken :
    (self : Text) (expected : Option Text) (read : Read) (did name : Text)
    → handshake self expected read ≡ shaken did name
    → (expects expected did ≡ true) × ((did == self) ≡ false)
unfolding handshake
handshake-shaken self expected (got (some (hello d v n))) did name h =
    elim (Bool-cases (expects expected d)) [
      | inr other ↦ absurd (ground (arith, h, other))
      | inl meant ↦ elim (Bool-cases (d == self)) [
        | inl own ↦ absurd (ground (arith, h, meant, own))
        | inr other ↦
            let e : d ≡ did = ground (arith, h, meant, other) in
            subst (λ x. (expects expected x ≡ true) × ((x == self) ≡ false)) e (meant, other)
      ]
    ]
handshake-shaken self expected other did name h = absurd (ground (arith, h))

-- A report that registers nobody, or this device under its name, with no file touched.
abbrev IsLinkOf : Text → Text → Files → Report → Type 0
IsLinkOf did name files r =
    ((r.registered ≡ none) × (r.inbound ≡ []))
    ⊎ ((r.registered ≡ some (did, display_name did name)) × (r.files ≡ files) × (r.received ≡ none))

module _ (digest : Bytes → Bytes) (describe : FileTransferError → Text) (disk : Disk)
    (ctx : PeerRunContext) (c : Connection) (did name : Text) (files : Files) where
  control_link-IsLinkOf :
      (pending : Option LanMessage)
      → IsLinkOf did name files (control_link ctx c did name pending files)
  unfolding control_link
  control_link-IsLinkOf pending = inr (refl, refl, refl)

  offered-IsLinkOf :
      (offer : FileOffer)
      → IsLinkOf did name files (offered digest describe disk ctx c did offer files)
  unfolding offered quiet
  offered-IsLinkOf offer =
      if_both (IsLinkOf did name files) ctx.receives_files _ _ (inl (refl, refl))
        (if_both (IsLinkOf did name files) c.writable _ _ (inl (refl, refl)) (inl (refl, refl)))

  sort_connection-IsLinkOf :
      (read : Read)
      → IsLinkOf did name files (sort_connection digest describe disk ctx c did name read files)
  unfolding sort_connection quiet
  sort_connection-IsLinkOf (got (some (blob_request s))) =
      if_both (IsLinkOf did name files) c.writable _ _ (inl (refl, refl)) (inl (refl, refl))
  sort_connection-IsLinkOf (got (some (file_offer o))) = offered-IsLinkOf o
  sort_connection-IsLinkOf (got (some other)) = control_link-IsLinkOf (some other)
  sort_connection-IsLinkOf (got none) = inl (refl, refl)
  sort_connection-IsLinkOf read_failed = inl (refl, refl)
  sort_connection-IsLinkOf timed_out = control_link-IsLinkOf none

pub IsSound : PeerRunContext → Files → Report → Type 0
IsSound ctx files r =
    ((r.registered ≡ none) × (r.inbound ≡ []))
    ⊎ ((did : Text) × (name : Text) × (r.registered ≡ some (did, name))
        × (expects ctx.expected_peer did ≡ true)
        × ((did == ctx.self_device_id) ≡ false)
        × (r.files ≡ files)
        × (r.received ≡ none))

linked :
    (ctx : PeerRunContext) (did name : Text) (files : Files) (r : Report)
    → (expects ctx.expected_peer did ≡ true) × ((did == ctx.self_device_id) ≡ false)
    → IsLinkOf did name files r
    → IsSound ctx files r
unfolding IsSound
linked ctx did name files r shake (inl quiet_one) = inl quiet_one
linked ctx did name files r shake (inr link) =
    inr (did, display_name did name, link.0, shake.0, shake.1, link.1, link.2)

shaken-IsSound :
    (digest : Bytes → Bytes) (describe : FileTransferError → Text) (disk : Disk)
    (ctx : PeerRunContext) (c : Connection) (files : Files) (shake : Handshake)
    → handshake ctx.self_device_id ctx.expected_peer c.hello_read ≡ shake
    → IsSound ctx files (elim shake as (λ x. Report) [
      | refused ↦ quiet (returned_err io_error) (own_hello ctx ∷ []) files
      | self_connect ↦ quiet returned (own_hello ctx ∷ []) files
      | shaken peer_did name ↦
          if c.ping_written
          then sort_connection digest describe disk ctx c peer_did name c.first_read files
          else quiet (returned_err io_error) (own_hello ctx ∷ []) files
    ])
unfolding IsSound quiet
shaken-IsSound digest describe disk ctx c files refused h = inl (refl, refl)
shaken-IsSound digest describe disk ctx c files self_connect h = inl (refl, refl)
shaken-IsSound digest describe disk ctx c files (shaken did name) h =
    if_both (IsSound ctx files) c.ping_written _ _
      (linked ctx did name files
        (sort_connection digest describe disk ctx c did name c.first_read files)
        (handshake-shaken ctx.self_device_id ctx.expected_peer c.hello_read did name h)
        (sort_connection-IsLinkOf digest describe disk ctx c did name files c.first_read))
      (inl (refl, refl))

-- A connection that registers a device touches no file and receives none; the device is not this
-- one, and is by its short id the one that was dialled, if one was. Every other connection forwards
-- no clip.
pub run_peer-IsSound :
    (digest : Bytes → Bytes) (describe : FileTransferError → Text) (disk : Disk)
    (ctx : PeerRunContext) (c : Connection) (files : Files)
    → IsSound ctx files (run_peer digest describe disk ctx c files)
unfolding run_peer IsSound quiet
run_peer-IsSound digest describe disk ctx c files =
    if_both (IsSound ctx files) (not c.hello_written) _ _ (inl (refl, refl)) (
      shaken-IsSound digest describe disk ctx c files
        (handshake ctx.self_device_id ctx.expected_peer c.hello_read) refl)

-- A node that is asked for a blob on a connection of its own, after a handshake that both have
-- passed and while all writes succeed, answers so that the asking node gets the bytes it has cached,
-- unless they are more than it takes.
pub fetch_loop-run_peer :
    (digest : Bytes → Bytes) (describe : FileTransferError → Text) (disk : Disk)
    (ctx : PeerRunContext) (c : Connection) (files : Files) (max_bytes : ℕ)
    (did name sha256_hex : Text)
    → c.hello_written ≡ true
    → c.ping_written ≡ true
    → c.writable ≡ true
    → handshake ctx.self_device_id ctx.expected_peer c.hello_read ≡ shaken did name
    → c.first_read ≡ got (some (blob_request sha256_hex))
    → fetch_loop max_bytes [] (run_peer digest describe disk ctx c files).written
      ≡ elim (get sha256_hex ctx.blob_cache) as (λ x. Option Bytes) [
        | none ↦ none
        | some bytes ↦ if ltb max_bytes (length bytes) then none else some bytes
      ]
unfolding sort_connection own_hello quiet fetch_loop run_peer
fetch_loop-run_peer digest describe disk ctx c files max_bytes did name sha256_hex h p w shake
      first =
    rw (h, run_peer, shake, p, first, w) (fetch_loop-serve_blob max_bytes ctx.blob_cache sha256_hex)
