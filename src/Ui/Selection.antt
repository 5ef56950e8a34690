-- ===== src/Ui/Selection.antt =====
-- ui/helpers/order_selection.rs and ui/helpers/dispute_selection.rs: the selected row of a filtered list,
-- kept by its id. The original indices that the code carries along are left out: no caller reads them.
pub mod Visible
use mostrix.Prelude.{
  ℕ, suc, ◌+◌, ◌-◌, min, ℤ, pos, negsuc, String, Bool, true, false, not, ◌&&◌, ◌||◌, Option, none,
  some, List, [], ◌∷◌, length, get_elem?, position, retain, any, map, is_some_and, and_then,
  unwrap_or, str_eq, ◌==◌, if◌then◌else◌, same,
}
use mostrix.Protocol.{Uuid, SmallOrder}
use mostrix.Disputes.{DisputeStatus, DisputeText, Dispute, AdminDispute, is_final}
use mostrix.Ui.Mode.{DisputeFilter}
use mostrix.Ui.App.{App}

-- `idx.saturating_add_signed(delta)`
abbrev pub saturating_add_signed : ℕ → ℤ → ℕ
saturating_add_signed i (pos n) = i + n
saturating_add_signed i (negsuc n) = i - suc n

module _ {ℓ} {A : Type ℓ} where
  -- The display row of a selection: the row with the selected id, else the first, and none only of an
  -- empty list.
  unfoldable pub display_idx : (Uuid → A → Bool) → Option Uuid → List A → Option ℕ
  display_idx has_id selected [] = none
  display_idx has_id selected (x ∷ xs) =
      some (unwrap_or (and_then selected (λ i. position (has_id i) (x ∷ xs))) 0)

  -- The row at a display row.
  abbrev pub row_at : List A → Option ℕ → Option A
  row_at rows k = and_then k (get_elem? rows)

  -- The display row after a move, clamped at both ends.
  unfoldable pub moved_idx : List A → ℤ → ℕ → ℕ
  moved_idx rows delta idx = min (saturating_add_signed idx delta) (length rows - 1)

abbrev pub has_order_id : Uuid → SmallOrder → Bool
has_order_id i o = is_some_and o.id (λ j. j == i)

abbrev pub has_dispute_id : Uuid → Dispute → Bool
has_dispute_id i d = d.id == i

abbrev pub has_admin_dispute_id : Uuid → AdminDispute → Bool
has_admin_dispute_id i d = d.dispute_id == i

module _ (to_uppercase : String → String) where
  unfoldable pub order_passes_currency_filter : List String → SmallOrder → Bool
  order_passes_currency_filter [] o = true
  order_passes_currency_filter (c ∷ cs) o =
      any (λ k. str_eq (to_uppercase k) (to_uppercase o.fiat_code)) (c ∷ cs)

  abbrev pub get_filtered_book_orders : List SmallOrder → List String → List SmallOrder
  get_filtered_book_orders orders filter = retain (order_passes_currency_filter filter) orders

  abbrev pub selected_filtered_book_order : App → List SmallOrder → Option SmallOrder
  selected_filtered_book_order app orders =
      let filtered = get_filtered_book_orders orders app.currencies_filter in
      row_at filtered (display_idx has_order_id app.selected_order_id filtered)

  -- A row without an id clears the selection.
  unfoldable pub move_book_order_selection : App → List SmallOrder → ℤ → App
  move_book_order_selection app orders delta =
      let filtered = get_filtered_book_orders orders app.currencies_filter in
      record app {
        selected_order_id = elim (display_idx has_order_id app.selected_order_id filtered) [
          | none ↦ none
          | some idx ↦ and_then (get_elem? filtered (moved_idx filtered delta idx)) (λ o. o.id)
        ];
      }

module _ (x : DisputeText) where
  abbrev pub is_initiated : Dispute → Bool
  is_initiated d = is_some_and (x.of_text d.status) (λ s. initiated s)
    where
      initiated : DisputeStatus → Bool
      initiated DisputeStatus.initiated = true
      initiated _ = false

  abbrev pub get_initiated_disputes : List Dispute → List Dispute
  get_initiated_disputes disputes = retain is_initiated disputes

  abbrev pub selected_pending_dispute : App → List Dispute → Option Dispute
  selected_pending_dispute app disputes =
      let rows = get_initiated_disputes disputes in
      row_at rows (display_idx has_dispute_id app.selected_pending_dispute_id rows)

  unfoldable pub move_pending_dispute_selection : App → List Dispute → ℤ → App
  move_pending_dispute_selection app disputes delta =
      let rows = get_initiated_disputes disputes in
      record app {
        selected_pending_dispute_id =
            elim (display_idx has_dispute_id app.selected_pending_dispute_id rows) [
              | none ↦ none
              | some idx ↦ elim (get_elem? rows (moved_idx rows delta idx)) [
                | none ↦ none
                | some d ↦ some d.id
              ]
            ];
      }

  abbrev kept_pending : Option Uuid → List Dispute → Option Uuid
  kept_pending selected [] = none
  kept_pending none (d ∷ ds) = some d.id
  kept_pending (some i) (d ∷ ds) = if any (has_dispute_id i) (d ∷ ds) then some i else some d.id

  unfoldable pub clamp_pending_dispute_selection : App → List Dispute → App
  clamp_pending_dispute_selection app disputes = record app {
    selected_pending_dispute_id =
        kept_pending app.selected_pending_dispute_id (get_initiated_disputes disputes);
  }

  abbrev passes : DisputeFilter → Option Uuid → AdminDispute → Bool
  passes DisputeFilter.in_progress selected d =
      is_some_and (and_then d.status x.of_text) running
      || is_some_and selected (λ i. has_admin_dispute_id i d)
    where
      running : DisputeStatus → Bool
      running DisputeStatus.in_progress = true
      running _ = false
  passes DisputeFilter.finalized selected d = is_some_and (and_then d.status x.of_text) is_final

  unfoldable pub get_filtered_disputes : App → List AdminDispute
  get_filtered_disputes app =
      retain (passes app.dispute_filter app.selected_dispute_id) app.admin_disputes_in_progress

  abbrev pub selected_filtered_dispute : App → Option AdminDispute
  selected_filtered_dispute app =
      let rows = get_filtered_disputes app in
      row_at rows (display_idx has_admin_dispute_id app.selected_dispute_id rows)

  unfoldable pub move_dispute_selection : App → ℤ → App
  move_dispute_selection app delta =
      let rows = get_filtered_disputes app in
      record app {
        selected_dispute_id = elim (display_idx has_admin_dispute_id app.selected_dispute_id rows) [
          | none ↦ app.selected_dispute_id
          | some idx ↦ elim (get_elem? rows (moved_idx rows delta idx)) [
            | none ↦ app.selected_dispute_id
            | some d ↦ some d.dispute_id
          ]
        ];
      }

  unfoldable pub retain_closed_displayed_dispute : Option Uuid → List Uuid → App → App
  retain_closed_displayed_dispute none closed app = app
  retain_closed_displayed_dispute (some i) closed app =
      if any (λ j. j == i) closed then record app { selected_dispute_id = some i } else app
