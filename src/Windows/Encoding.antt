-- ===== src/Windows/Encoding.antt =====
-- The encoding of an outbound image in clients/windows/src/bridge.rs. Decoding and encoding are the
-- image crate's, the file system the operating system's: both are parameters.
pub mod Bounds
use clip_bridge.Core.Crypto.{Bytes, sha256_hex}
use clip_bridge.Windows.{max_image_bytes}
use clip_bridge.Prelude.{
  ℕ, ◌≤◌, ◌≡◌, ◌⊎◌, Bool, false, not, ◌&&◌, ◌||◌, Option, none, some, List, [], ◌∷◌, map, ltb, leb,
  if◌then◌else◌, ◌==◌, list_eq, nat_eq, option_eq, length, is_empty, retain, Text, codes,
  starts_with,
}
use clip_bridge.Prelude.Chars.{is_whitespace, trim_matches}

-- `image::load_from_memory` and what the code asks of an image.
pub record ImageCrate : Type 1 where
  pub Image : Type 0
  pub load_from_memory : Bytes → Option Image
  pub dimensions : Image → ℕ × ℕ
  pub write_png : Image → Option Bytes
  pub encode_jpeg : Image → ℕ → Option Bytes
  pub rgba : Image → Bytes
  -- `thumbnail_data_url(bytes, 96)`, an empty text where it fails.
  pub thumbnail : Bytes → Text

pub record NormalizedPng : Type 0 where
  pub bytes : Bytes
  pub mime : Text
  pub width : ℕ
  pub height : ℕ

unfoldable pub is_png : Bytes → Bool
is_png bytes = starts_with bytes (0x89 ∷ 0x50 ∷ 0x4e ∷ 0x47 ∷ [])

unfoldable pub is_jpeg : Bytes → Bool
is_jpeg bytes = starts_with bytes (0xff ∷ 0xd8 ∷ 0xff ∷ [])

module _ (crate : ImageCrate) where
  unfoldable pub as_png : crate.Image → Bytes → NormalizedPng
  as_png img png = record {
    bytes = png;
    mime = codes "image/png";
    width = (crate.dimensions img).0;
    height = (crate.dimensions img).1;
  }

  unfoldable pub as_jpeg : crate.Image → Bytes → NormalizedPng
  as_jpeg img jpeg = record {
    bytes = jpeg;
    mime = codes "image/jpeg";
    width = (crate.dimensions img).0;
    height = (crate.dimensions img).1;
  }

  -- The loop over the qualities, and the last attempt after it.
  unfoldable pub jpeg_loop : crate.Image → List ℕ → Option NormalizedPng
  jpeg_loop img [] = elim (crate.encode_jpeg img 50) [
    | none ↦ none
    | some jpeg ↦ some (as_jpeg img jpeg)
  ]
  jpeg_loop img (quality ∷ qualities) =
      let rest = jpeg_loop img qualities in
      elim (crate.encode_jpeg img quality) [
        | none ↦ rest
        | some jpeg ↦ if leb (length jpeg) max_image_bytes then some (as_jpeg img jpeg) else rest
      ]

  unfoldable pub encode_dynamic_for_wire : crate.Image → Bool → Option NormalizedPng
  encode_dynamic_for_wire img skip_png =
      let jpeg = jpeg_loop img (92 ∷ 85 ∷ 75 ∷ 60 ∷ []) in
      if skip_png then jpeg else elim (crate.write_png img) [
        | none ↦ jpeg
        | some png ↦ if leb (length png) max_image_bytes then some (as_png img png) else jpeg
      ]

  unfoldable pub encode_for_wire : Bytes → Option NormalizedPng
  encode_for_wire bytes = elim (crate.load_from_memory bytes) [
    | none ↦ none
    | some img ↦
        if (is_png bytes || is_jpeg bytes) && leb (length bytes) max_image_bytes
        then some (if is_png bytes then as_png img bytes else as_jpeg img bytes)
        else encode_dynamic_for_wire img (is_png bytes || is_jpeg bytes)
  ]

  unfoldable pub pixel_hash_hex : (Bytes → Bytes) → Bytes → Option Text
  pixel_hash_hex digest bytes = elim (crate.load_from_memory bytes) [
    | none ↦ none
    | some img ↦ some (sha256_hex digest (crate.rgba img))
  ]

-- What the code asks of a path: `Path::extension` in lower case, whether it is a file and how long,
-- and its bytes.
pub record FileSystem : Type 0 where
  pub lower_extension : Text → Option Text
  pub metadata : Text → Option (Bool × ℕ)
  pub read : Text → Option Bytes

unfoldable pub is_supported_clipboard_image_file : FileSystem → Text → Bool
is_supported_clipboard_image_file fs path = elim (fs.lower_extension path) [
  | none ↦ false
  | some ext ↦ ext == codes "png" || ext == codes "jpg" || ext == codes "jpeg"
]

unfoldable pub normalize_image_file_at_path : ImageCrate → FileSystem → Text → Option NormalizedPng
normalize_image_file_at_path crate fs path =
    if not (is_supported_clipboard_image_file fs path) then none else elim (fs.metadata path) [
      | none ↦ none
      | some (is_file, len) ↦
          if not is_file || ltb max_image_bytes len
          then none
          else elim (fs.read path) [ none ↦ none | some bytes ↦ encode_for_wire crate bytes ]
    ]

-- `find_map` over the files on the clipboard.
unfoldable pub normalize_first_image_file :
    ImageCrate → FileSystem → List Text → Option NormalizedPng
normalize_first_image_file crate fs [] = none
normalize_first_image_file crate fs (path ∷ paths) =
    let rest = normalize_first_image_file crate fs paths in
    elim (normalize_image_file_at_path crate fs path) [ none ↦ rest | some png ↦ some png ]

unfoldable pub supported_drag_image_paths : FileSystem → List Text → List Text
supported_drag_image_paths fs paths = retain (is_supported_clipboard_image_file fs) paths

unfoldable pub pathbufs_from_drag_strings : List Text → List Text
pathbufs_from_drag_strings paths =
    retain (λ p. not (is_empty p)) (map (trim_matches is_whitespace) paths)

-- Within the cap, or the last attempt at a JPEG.
pub IsWireImage : ImageCrate → NormalizedPng → Type 0
IsWireImage crate png =
    (length png.bytes ≤ max_image_bytes)
    ⊎ ((img : crate.Image) × (crate.encode_jpeg img 50 ≡ some png.bytes)
        × (png.mime ≡ codes "image/jpeg"))
