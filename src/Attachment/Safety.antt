-- ===== src/Attachment/Safety.antt =====
-- util/file_validation.rs: the reads and the loop of the image header parsers.
use mostrix.Prelude.{
  ℕ, false, zero, suc, ◌+◌, ◌*◌, ◌≤◌, ◌<◌, ◌≡◌, refl, some, List, [], ◌∷◌, length, get_elem?, arith,
  Bool-cases, inl, inr, ltb, leb, ◌==◌, ◌||◌, ◌&&◌,
}
use mostrix.Attachment.{
  ImageRead, ScanStep, scan_step, be16, be32, is_size, is_sof, sof_size, segment, at_marker,
  at_byte, jpeg_dimensions, png_dimensions, starts_with, jpeg_scan, read_image_dimensions,
}

get_elem-some : (xs : List ℕ) (i : ℕ) → i < length xs → (b : ℕ) × (get_elem? xs i ≡ some b)
get_elem-some [] i h = absurd (omega (arith, h))
get_elem-some (x ∷ xs) zero h = (x, refl)
get_elem-some (x ∷ xs) (suc i) h = get_elem-some xs i (omega (arith, h))

-- A positive size, or that there is none: neither a panic nor a loop that has not ended.
unfoldable pub IsAnswer : ImageRead → Type 0
IsAnswer (ImageRead.dimensions w h) = (0 < w) × (0 < h)
IsAnswer ImageRead.unreadable = Unit
IsAnswer ImageRead.index_panic = ⊥
IsAnswer ImageRead.out_of_fuel = ⊥

-- A pass ends with an answer, or goes on further on, within the data.
Proceeds : List ℕ → ℕ → ScanStep → Type 0
Proceeds bytes i (ScanStep.ends r) = IsAnswer r
Proceeds bytes i (ScanStep.goes_on j) = (i < j) × (j ≤ length bytes)

be16-some : (bytes : List ℕ) (i : ℕ) → i + 1 < length bytes → (v : ℕ) × (be16 bytes i ≡ some v)
be16-some bytes i h =
    let a = get_elem-some bytes i (omega (arith, h)) in
    let b = get_elem-some bytes (i + 1) h in (a.0 * 256 + b.0, rw (a.1, b.1) refl)

sof_size-Proceeds :
    (bytes : List ℕ) (i next h w : ℕ)
    → i < next
    → next ≤ length bytes
    → Proceeds bytes i (sof_size bytes next (some h) (some w))
unfolding Proceeds IsAnswer
sof_size-Proceeds bytes i next h w a b = elim (Bool-cases (is_size w h)) [
  | inl q ↦ rw q (ground (arith, q), ground (arith, q))
  | inr q ↦ rw q (a, b)
]

segment-Proceeds :
    (bytes : List ℕ) (i marker seg_len : ℕ)
    → i + 9 < length bytes
    → Proceeds bytes i (segment bytes i marker (some seg_len))
unfolding Proceeds IsAnswer
segment-Proceeds bytes i marker seg_len h =
    elim (Bool-cases (ltb seg_len 2 || ltb (length bytes) (i + 2 + seg_len))) [
      | inl q ↦ rw q tt
      | inr q ↦
          let within : i + 2 + seg_len ≤ length bytes = ground (arith, q) in
          let height = be16-some bytes (i + 5) (omega (arith, h)) in
          let width = be16-some bytes (i + 7) (omega (arith, h)) in
          elim (Bool-cases (is_sof marker && leb 7 seg_len)) [
            | inr a ↦ rw (q, a) (omega arith, within)
            | inl a ↦
                rw (q, a, height.1, width.1)
                  (sof_size-Proceeds bytes i (i + 2 + seg_len) height.0 width.0 (omega arith)
                    within)
          ]
    ]

at_marker-Proceeds :
    (bytes : List ℕ) (i marker : ℕ)
    → i + 9 < length bytes
    → Proceeds bytes i (at_marker bytes i (some marker))
unfolding Proceeds IsAnswer
at_marker-Proceeds bytes i marker h = elim (Bool-cases (marker == 217)) [
  | inl q ↦ rw q tt
  | inr q ↦
      let short : leb (length bytes) (i + 3) ≡ false = ground (arith, h) in
      let v = be16-some bytes (i + 2) (omega (arith, h)) in
      rw (q, short, v.1) (segment-Proceeds bytes i marker v.0 h)
]

at_byte-Proceeds :
    (bytes : List ℕ) (i b : ℕ) → i + 9 < length bytes → Proceeds bytes i (at_byte bytes i (some b))
unfolding Proceeds IsAnswer
at_byte-Proceeds bytes i b h = elim (Bool-cases (b == 255)) [
  | inr q ↦ rw q (omega arith, omega (arith, h))
  | inl q ↦
      let m = get_elem-some bytes (i + 1) (omega (arith, h)) in
      rw (q, m.1) (at_marker-Proceeds bytes i m.0 h)
]

scan_step-Proceeds : (bytes : List ℕ) (i : ℕ) → Proceeds bytes i (scan_step bytes i)
unfolding Proceeds IsAnswer scan_step
scan_step-Proceeds bytes i = elim (Bool-cases (ltb (i + 9) (length bytes))) [
  | inr q ↦ rw q tt
  | inl q ↦
      let within : i + 9 < length bytes = ground (arith, q) in
      let b = get_elem-some bytes i (omega (arith, within)) in
      rw (q, b.1) (at_byte-Proceeds bytes i b.0 within)
]

continues :
    (bytes : List ℕ) (i : ℕ) (rest : ℕ → ImageRead)
    → ((j : ℕ) → i < j → j ≤ length bytes → IsAnswer (rest j))
    → (s : ScanStep) → Proceeds bytes i s
    → IsAnswer (elim s [ ScanStep.ends r ↦ r | ScanStep.goes_on j ↦ rest j ])
unfolding Proceeds
continues bytes i rest f (ScanStep.ends r) p = p
continues bytes i rest f (ScanStep.goes_on j) (p, q) = f j p q

jpeg_scan-IsAnswer :
    (bytes : List ℕ) (fuel i : ℕ)
    → i ≤ length bytes
    → length bytes < i + fuel
    → IsAnswer (jpeg_scan bytes fuel i)
unfolding jpeg_scan Proceeds
jpeg_scan-IsAnswer bytes zero i a h = absurd (omega (arith, a, h))
jpeg_scan-IsAnswer bytes (suc fuel) i a h =
    continues bytes i (jpeg_scan bytes fuel)
      (λ j p q. jpeg_scan-IsAnswer bytes fuel j q (omega (arith, h, p))) (scan_step bytes i)
      (scan_step-Proceeds bytes i)

jpeg-IsAnswer : (bytes : List ℕ) → IsAnswer (jpeg_dimensions bytes)
unfolding IsAnswer
jpeg-IsAnswer bytes =
    elim (Bool-cases (leb 4 (length bytes) && starts_with bytes (255 ∷ 216 ∷ []))) [
      | inr q ↦ rw q tt
      | inl q ↦
          let long : 4 ≤ length bytes = ground (arith, q) in
          rw q
            (jpeg_scan-IsAnswer bytes (length bytes) 2 (omega (arith, long)) (omega (arith, long)))
    ]

be32-some : (bytes : List ℕ) (i : ℕ) → i + 3 < length bytes → (v : ℕ) × (be32 bytes i ≡ some v)
be32-some bytes i h =
    let a = be16-some bytes i (omega (arith, h)) in
    let b = be16-some bytes (i + 2) (omega (arith, h)) in (a.0 * 65536 + b.0, rw (a.1, b.1) refl)

png-IsAnswer : (bytes : List ℕ) (w h : ℕ) → IsAnswer (png_dimensions bytes (some w) (some h))
unfolding IsAnswer
png-IsAnswer bytes w h = elim (Bool-cases (is_size w h)) [
  | inl q ↦ rw q (ground (arith, q), ground (arith, q))
  | inr q ↦ rw q (jpeg-IsAnswer bytes)
]

-- Whatever the bytes of the file, no read is out of range, the loop over JPEG segments ends, and a size
-- that is returned is positive in both directions.
pub read_image_dimensions-IsAnswer : (bytes : List ℕ) → IsAnswer (read_image_dimensions bytes)
unfolding read_image_dimensions
read_image_dimensions-IsAnswer bytes =
    elim (Bool-cases
      (starts_with bytes (137 ∷ 80 ∷ 78 ∷ 71 ∷ 13 ∷ 10 ∷ 26 ∷ 10 ∷ []) && leb 24 (length bytes))) [
        | inr q ↦ rw q (jpeg-IsAnswer bytes)
        | inl q ↦
            let long : 24 ≤ length bytes = ground (arith, q) in
            let w = be32-some bytes 16 (omega (arith, long)) in
            let h = be32-some bytes 20 (omega (arith, long)) in
            rw (q, w.1, h.1) (png-IsAnswer bytes w.0 h.0)
      ]
