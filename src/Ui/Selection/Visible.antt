-- ===== src/Ui/Selection/Visible.antt =====
-- ui/helpers/dispute_selection.rs: moves of the selection on the filtered list.
use mostrix.Prelude.{
  ℕ, zero, suc, ◌-◌, ◌<◌, min, ℤ, ◌≡◌, ap, subst, refl, false, Option, some, List, [], ◌∷◌, length,
  get_elem?, position, any, unwrap_or, arith,
}
use mostrix.Protocol.{Uuid}
use mostrix.Disputes.{DisputeText, Dispute}
use mostrix.Ui.App.{App}
use mostrix.Ui.Selection.{
  display_idx, moved_idx, saturating_add_signed, has_dispute_id, get_initiated_disputes,
  move_pending_dispute_selection,
}

-- No two disputes have the same id.
abbrev pub Distinct : List Dispute → Type 0
Distinct [] = Unit
Distinct (x ∷ xs) = (any (has_dispute_id x.id) xs ≡ false) × Distinct xs

module _ {ℓ} {A : Type ℓ} where
  get_below : (xs : List A) (k : ℕ) → k < length xs → (x : A) × (get_elem? xs k ≡ some x)
  get_below [] k l = absurd (omega (arith, l))
  get_below (x ∷ xs) zero l = (x, refl)
  get_below (x ∷ xs) (suc k) l = get_below xs k (omega (arith, l))

  moved_below : (xs : List A) (d : ℤ) (k : ℕ) → 0 < length xs → moved_idx xs d k < length xs
  unfolding moved_idx
  moved_below xs d k l = ground (arith, l)

same_later :
    (xs : List Dispute) (k : ℕ) (x d : Dispute)
    → any (has_dispute_id x.id) xs ≡ false
    → get_elem? xs k ≡ some d
    → has_dispute_id d.id x ≡ false
same_later [] k x d h g = cc
same_later (y ∷ ys) zero x d h g =
    subst (λ z. has_dispute_id z.id x ≡ false) (ap (λ o. unwrap_or o y) g) (ground (arith, h))
same_later (y ∷ ys) (suc k) x d h g = same_later ys k x d (ground (arith, h)) g

position-get :
    (xs : List Dispute) (k : ℕ) (d : Dispute)
    → Distinct xs
    → get_elem? xs k ≡ some d
    → position (has_dispute_id d.id) xs ≡ some k
position-get [] k d u g = cc
position-get (x ∷ xs) zero d u g =
    subst (λ z. position (has_dispute_id z.id) (x ∷ xs) ≡ some 0) (ap (λ o. unwrap_or o x) g)
      (ground arith)
position-get (x ∷ xs) (suc k) d u g =
    ground (arith, same_later xs k x d u.0 g, position-get xs k d u.1 g)

display_of :
    (xs : List Dispute) (i : Uuid) (k : ℕ)
    → 0 < length xs
    → position (has_dispute_id i) xs ≡ some k
    → display_idx has_dispute_id (some i) xs ≡ some k
unfolding display_idx
display_of [] i k l q = absurd (omega (arith, l))
display_of (x ∷ xs) i k l q = rw q refl

shown_some :
    (xs : List Dispute) (o : Option Uuid) (k : ℕ)
    → display_idx has_dispute_id o xs ≡ some k
    → 0 < length xs
unfolding display_idx
shown_some [] o k q = cc
shown_some (x ∷ xs) o k q = omega arith

-- Where the waiting disputes have different ids, moving the selection from the highlighted row by any
-- distance highlights the row at that distance, or the last or first row where there is none, and that is
-- a row of the list.
pub moved_row_highlighted :
    (x : DisputeText) (app : App) (disputes : List Dispute) (delta : ℤ) (k : ℕ)
    → Distinct (get_initiated_disputes x disputes)
    → display_idx has_dispute_id app.selected_pending_dispute_id (get_initiated_disputes x disputes)
      ≡ some k
    → let rows = get_initiated_disputes x disputes in
      let k' = min (saturating_add_signed k delta) (length rows - 1) in
      let after = move_pending_dispute_selection x app disputes delta in
      (k' < length rows)
      × (display_idx has_dispute_id after.selected_pending_dispute_id rows ≡ some k')
unfolding move_pending_dispute_selection moved_idx
moved_row_highlighted x app disputes delta k u q =
    let rows = get_initiated_disputes x disputes in
    let l = shown_some rows app.selected_pending_dispute_id k q in
    let b = moved_below rows delta k l in
    let r = get_below rows (moved_idx rows delta k) b in
    (
      b,
      rw (move_pending_dispute_selection, q)
          (rw r.1 (
            display_of rows r.0.id (moved_idx rows delta k) l
              (position-get rows (moved_idx rows delta k) r.0 u r.1))),
    )
