-- ===== src/Relay/Ws/Access.antt =====
-- Who may do what on a connection: only a member of a group reaches its state.
use clip_bridge.Core.Crypto.{Bytes}
use clip_bridge.Core.Net.{ip_eq, AddrText}
use clip_bridge.Core.Protocol.{
  RecentClip, ClientMessage, join, publish, fetch_recent, lan_advertise, clip, error,
}
use clip_bridge.Prelude.{
  ℕ, ◌≡◌, ◌≢◌, inl, inr, refl, true, false, Option, none, some, [], ◌∷◌, arith, eq_iff, eq_refl,
  list_eq, nat_eq, option_eq, Text, codes, Option-cases,
}
use clip_bridge.Relay.Hub
use clip_bridge.Relay.Hub.{Hub, Group, RvConn, group_of, with_group}
use clip_bridge.Relay.Ws.{
  Session, message, reply, broadcast, Step, stay, in_group, advertise, handle_text, deliver,
}

-- The group that a message asks about, and the device that it claims to come from.
abbrev pub named_group : ClientMessage → Option Text
named_group (join group_id did) = none
named_group (publish group_id ciphertext nonce ts) = some group_id
named_group (fetch_recent group_id) = some group_id
named_group (lan_advertise group_id did name candidates networks) = some group_id

abbrev pub IsRefusal : Session → Hub → Step → Type 0
IsRefusal s h r =
    (r.session ≡ s) × (r.hub ≡ h) × ((reason : Text) × (r.out ≡ reply (error reason) ∷ []))

module _ (t : AddrText) where
  refuse_outsider :
      (now : ℕ) (m : ClientMessage) (g : Text) (s : Session) (h : Hub)
      → named_group m ≡ some g
      → in_group s g ≡ false
      → (reason : Text) × (handle_text t now (message m) s h ≡ stay s h (reply (error reason) ∷ []))
  unfolding handle_text advertise
  refuse_outsider now (join group_id did) g s h named out = absurd (ground arith)
  refuse_outsider now (publish group_id ciphertext nonce ts) g s h named out =
      let same : group_id ≡ g = ground (arith, named) in
      elim (Option-cases s.device_id) [
        | inl e ↦ (codes "join first", ground (arith, e))
        | inr (did, e) ↦ (codes "group mismatch", ground (arith, e, same, out))
      ]
  refuse_outsider now (fetch_recent group_id) g s h named out =
      let same : group_id ≡ g = ground (arith, named) in
      (codes "group mismatch", ground (arith, same, out))
  refuse_outsider now (lan_advertise group_id did name candidates networks) g s h named out =
      let same : group_id ≡ g = ground (arith, named) in
      elim (Option-cases s.device_id) [
        | inl e ↦ (codes "join first", ground (arith, e))
        | inr (d, e) ↦ (codes "group mismatch", ground (arith, e, same, out))
      ]

  -- A message about a group that the connection has not joined is answered with one error, and
  -- changes neither the connection nor any part of the hub.
  pub handle_text-IsRefusal :
      (now : ℕ) (m : ClientMessage) (g : Text) (s : Session) (h : Hub)
      → named_group m ≡ some g
      → in_group s g ≡ false
      → IsRefusal s h (handle_text t now (message m) s h)
  handle_text-IsRefusal now m g s h named out =
      let (reason, e) = refuse_outsider now m g s h named out in rw e (refl, refl, (reason, refl))

  -- A member's clip goes out on its group's channel under the member's own device id; no connection
  -- of that device is sent it, and every connection of another device, or of none yet, is.
  pub publish-deliver :
      (now : ℕ) (g did : Text) (ciphertext nonce : Bytes) (ts : ℕ) (s other : Session) (h : Hub)
      → in_group s g ≡ true
      → s.device_id ≡ some did
      → (c : RecentClip) × ((handle_text t now (message (publish g ciphertext nonce ts)) s h).out
          ≡ broadcast g c ∷ [])
        × (deliver c s ≡ [])
        × (other.device_id ≢ some did → deliver c other ≡ reply (clip ciphertext nonce ts did) ∷ [])
  unfolding handle_text deliver Hub.publish
  publish-deliver now g did ciphertext nonce ts s other h member known =
      let c : RecentClip = record {
        ciphertext = ciphertext;
        nonce = nonce;
        ts = ts;
        sender_device_id = did;
      } in
      (
        c,
        ground (arith, member, known),
        ground (arith, known, eq_refl (some did)),
        λ ne. ground (arith, ne, eq_iff (some did) other.device_id),
      )
