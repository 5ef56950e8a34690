-- ===== src/Examples/Image.antt =====
-- util/file_validation.rs on the bytes of small images.
use mostrix.Prelude.{ℕ, ◌≡◌, refl, List, [], ◌∷◌}
use mostrix.Attachment.{ImageRead, read_image_dimensions, jpeg_scan, scan_step}
use mostrix.Attachment.Safety.{IsAnswer, read_image_dimensions-IsAnswer}

-- The PNG header of `accepts_small_png`, one pixel.
abbrev small_png : List ℕ
small_png =
    137 ∷ 80 ∷ 78 ∷ 71 ∷ 13 ∷ 10 ∷ 26 ∷ 10 ∷ 0 ∷ 0 ∷ 0 ∷ 13 ∷ 73 ∷ 72 ∷ 68 ∷ 82 ∷ 0 ∷ 0 ∷ 0 ∷ 1 ∷ 0
    ∷ 0 ∷ 0 ∷ 1 ∷ []

-- An empty comment segment, then a frame of 3 by 2 pixels.
abbrev small_jpeg : List ℕ
small_jpeg = 255 ∷ 216 ∷ 255 ∷ 254 ∷ 0 ∷ 2 ∷ 255 ∷ 192 ∷ 0 ∷ 8 ∷ 8 ∷ 0 ∷ 2 ∷ 0 ∷ 3 ∷ 0 ∷ []

png_read : read_image_dimensions small_png ≡ ImageRead.dimensions 1 1
unfolding read_image_dimensions
png_read = refl

jpeg_read : read_image_dimensions small_jpeg ≡ ImageRead.dimensions 3 2
unfolding read_image_dimensions jpeg_scan scan_step
jpeg_read = refl

read_image_dimensions-IsAnswer_example : IsAnswer (read_image_dimensions small_jpeg)
read_image_dimensions-IsAnswer_example = read_image_dimensions-IsAnswer small_jpeg
