-- ===== src/Attachment.antt =====
-- util/file_validation.rs: the pixel size of a PNG or JPEG attachment, read from its header.
pub mod Safety
use mostrix.Prelude.{
  ℕ, zero, suc, ◌+◌, ◌*◌, ◌^◌, Bool, true, false, not, ◌&&◌, ◌||◌, Option, none, some, List, [],
  ◌∷◌, length, get_elem?, any, ltb, leb, ◌==◌, if◌then◌else◌,
}

-- A read out of range panics, so it is an outcome of its own; `out_of_fuel` stands for a loop that has
-- not ended.
pub data ImageRead : Type 0 where
  dimensions : ℕ → ℕ → ImageRead
  unreadable index_panic out_of_fuel : ImageRead

-- One pass through the `while` loop: it ends, or goes on at an index.
pub data ScanStep : Type 0 where
  ends : ImageRead → ScanStep
  goes_on : ℕ → ScanStep

abbrev both : ℕ → Option ℕ → Option ℕ → Option ℕ
both base (some a) (some b) = some (a * base + b)
both base _ none = none
both base none _ = none

abbrev pub is_size : ℕ → ℕ → Bool
is_size w h = ltb 0 w && ltb 0 h

abbrev pub starts_with : List ℕ → List ℕ → Bool
starts_with xs [] = true
starts_with [] (p ∷ ps) = false
starts_with (x ∷ xs) (p ∷ ps) = (x == p) && starts_with xs ps

-- The start-of-frame markers that the code names.
abbrev pub is_sof : ℕ → Bool
is_sof m = any (λ x. x == m) (192 ∷ 193 ∷ 194 ∷ 195 ∷ 197 ∷ 198 ∷ 199 ∷ 201 ∷ 202 ∷ 203 ∷ [])

module _ (bytes : List ℕ) where
  -- `u16::from_be_bytes([bytes[i], bytes[i + 1]])`
  abbrev pub be16 : ℕ → Option ℕ
  be16 i = both 256 (get_elem? bytes i) (get_elem? bytes (i + 1))

  -- `u32::from_be_bytes` of the four bytes from `i`.
  abbrev pub be32 : ℕ → Option ℕ
  be32 i = both 65536 (be16 i) (be16 (i + 2))

  abbrev pub sof_size : ℕ → Option ℕ → Option ℕ → ScanStep
  sof_size next (some h) (some w) = if is_size w h then ends (dimensions w h) else goes_on next
  sof_size next _ none = ends index_panic
  sof_size next none _ = ends index_panic

  abbrev pub segment : ℕ → ℕ → Option ℕ → ScanStep
  segment i marker none = ends index_panic
  segment i marker (some seg_len) =
      if ltb seg_len 2 || ltb (length bytes) (i + 2 + seg_len)
      then ends unreadable
      else if is_sof marker && leb 7 seg_len
      then sof_size (i + 2 + seg_len) (be16 (i + 5)) (be16 (i + 7))
      else goes_on (i + 2 + seg_len)

  abbrev pub at_marker : ℕ → Option ℕ → ScanStep
  at_marker i none = ends index_panic
  at_marker i (some marker) =
      if marker == 217
      then ends unreadable
      else if leb (length bytes) (i + 3)
      then ends unreadable
      else segment i marker (be16 (i + 2))

  abbrev pub at_byte : ℕ → Option ℕ → ScanStep
  at_byte i none = ends index_panic
  at_byte i (some b) = if b == 255 then at_marker i (get_elem? bytes (i + 1)) else goes_on (i + 1)

  unfoldable pub scan_step : ℕ → ScanStep
  scan_step i =
      if ltb (i + 9) (length bytes) then at_byte i (get_elem? bytes i) else ends unreadable

  -- The `while` loop from index `i`.
  unfoldable pub jpeg_scan : ℕ → ℕ → ImageRead
  jpeg_scan zero i = out_of_fuel
  jpeg_scan (suc fuel) i = elim (scan_step i) [ ends r ↦ r | goes_on j ↦ jpeg_scan fuel j ]

  abbrev pub jpeg_dimensions : ImageRead
  jpeg_dimensions =
      if leb 4 (length bytes) && starts_with bytes (255 ∷ 216 ∷ [])
      then jpeg_scan (length bytes) 2
      else unreadable

  abbrev pub png_dimensions : Option ℕ → Option ℕ → ImageRead
  png_dimensions (some w) (some h) = if is_size w h then dimensions w h else jpeg_dimensions
  png_dimensions _ none = index_panic
  png_dimensions none _ = index_panic

  unfoldable pub read_image_dimensions : ImageRead
  read_image_dimensions =
      if starts_with bytes (137 ∷ 80 ∷ 78 ∷ 71 ∷ 13 ∷ 10 ∷ 26 ∷ 10 ∷ []) && leb 24 (length bytes)
      then png_dimensions (be32 16) (be32 20)
      else jpeg_dimensions
