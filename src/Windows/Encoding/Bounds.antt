-- ===== src/Windows/Encoding/Bounds.antt =====
-- The size of an encoded image of clients/windows/src/bridge.rs.
use clip_bridge.Core.Crypto.{Bytes}
use clip_bridge.Windows.{max_image_bytes}
use clip_bridge.Windows.Encoding.{
  ImageCrate, NormalizedPng, is_png, is_jpeg, as_png, as_jpeg, jpeg_loop, encode_dynamic_for_wire,
  encode_for_wire, IsWireImage,
}
use clip_bridge.Prelude.{
  ℕ, ◌≤◌, ◌≡◌, inl, inr, refl, subst, Bool, ◌&&◌, ◌||◌, Option, none, some, List, [], ◌∷◌, arith,
  leb, if◌then◌else◌, list_eq, nat_eq, option_eq, length, Option-cases, if_both, if_given, leb→le,
}

module _ (crate : ImageCrate) where
  -- Nothing, or an image for the wire.
  abbrev AllWire : Option NormalizedPng → Type 0
  AllWire o = (png : NormalizedPng) → o ≡ some png → IsWireImage crate png

  no_image : AllWire none
  no_image png e = absurd (ground (arith, e))

  one_image : (p : NormalizedPng) → IsWireImage crate p → AllWire (some p)
  one_image p w png e = subst (IsWireImage crate) (ground (arith, e)) w

  jpeg-within :
      (img : crate.Image) (jpeg : Bytes)
      → length jpeg ≤ max_image_bytes
      → IsWireImage crate (as_jpeg crate img jpeg)
  unfolding as_jpeg IsWireImage
  jpeg-within img jpeg small = inl small

  png-within :
      (img : crate.Image) (png : Bytes)
      → length png ≤ max_image_bytes
      → IsWireImage crate (as_png crate img png)
  unfolding as_png IsWireImage
  png-within img png small = inl small

  last_attempt :
      (img : crate.Image) (jpeg : Bytes)
      → crate.encode_jpeg img 50 ≡ some jpeg
      → IsWireImage crate (as_jpeg crate img jpeg)
  unfolding as_jpeg IsWireImage
  last_attempt img jpeg made = inr (img, made, refl)

  jpeg_loop-IsWireImage :
      (img : crate.Image) (qualities : List ℕ) → AllWire (jpeg_loop crate img qualities)
  unfolding jpeg_loop
  jpeg_loop-IsWireImage img [] = elim (Option-cases (crate.encode_jpeg img 50)) [
    | inl bad ↦ rw (bad, jpeg_loop) no_image
    | inr (jpeg, made) ↦
        rw (made, jpeg_loop) (one_image (as_jpeg crate img jpeg) (last_attempt img jpeg made))
  ]
  jpeg_loop-IsWireImage img (quality ∷ qualities) =
      let rest = jpeg_loop-IsWireImage img qualities in
      elim (Option-cases (crate.encode_jpeg img quality)) [
        | inl bad ↦ rw (bad, jpeg_loop) rest
        | inr (jpeg, made) ↦
            rw (made, jpeg_loop)
              (if_given AllWire (leb (length jpeg) max_image_bytes) _ _
                (λ small.
                  one_image (as_jpeg crate img jpeg) (jpeg-within img jpeg (leb→le _ _ small)))
                (λ big. rest))
      ]

  encode_dynamic_for_wire-IsWireImage :
      (img : crate.Image) (skip_png : Bool) → AllWire (encode_dynamic_for_wire crate img skip_png)
  unfolding encode_dynamic_for_wire
  encode_dynamic_for_wire-IsWireImage img skip_png =
      let jpeg = jpeg_loop-IsWireImage img (92 ∷ 85 ∷ 75 ∷ 60 ∷ []) in
      if_both AllWire skip_png _ _ jpeg (elim (Option-cases (crate.write_png img)) [
        | inl bad ↦ rw bad jpeg
        | inr (png, made) ↦ rw made (
            if_given AllWire (leb (length png) max_image_bytes) _ _
              (λ small. one_image (as_png crate img png) (png-within img png (leb→le _ _ small)))
              (λ big. jpeg))
      ])

-- An image that is encoded for the wire is within the cap of 32 MiB, or is the last attempt, a JPEG
-- of quality 50.
pub encode_for_wire-IsWireImage :
    (crate : ImageCrate) (bytes : Bytes) (png : NormalizedPng)
    → encode_for_wire crate bytes ≡ some png
    → IsWireImage crate png
unfolding encode_for_wire
encode_for_wire-IsWireImage crate bytes = elim (Option-cases (crate.load_from_memory bytes)) [
  | inl bad ↦ rw (bad, encode_for_wire) (no_image crate)
  | inr (img, loaded) ↦
      rw (loaded, encode_for_wire)
        (if_given (AllWire crate)
          ((is_png bytes || is_jpeg bytes) && leb (length bytes) max_image_bytes) _ _
          (λ verbatim.
            let small : length bytes ≤ max_image_bytes = ground (arith, verbatim) in
            one_image crate
              (if is_png bytes then as_png crate img bytes else as_jpeg crate img bytes)
              (if_both (IsWireImage crate) (is_png bytes) _ _ (png-within crate img bytes small)
                (jpeg-within crate img bytes small)))
          (λ other. encode_dynamic_for_wire-IsWireImage crate img (is_png bytes || is_jpeg bytes)))
]
