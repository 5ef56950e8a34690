-- ===== src/TradeIndex.antt =====
-- models.rs (`User`): the counter from which trade keys are derived, for one row of the `users`
-- table: importing a mnemonic starts a new row. The `+ 1` is taken to stay below `i64::MAX`.
use mostrix.Prelude.{
  ℕ, suc, ◌-◌, ◌^◌, ◌≤◌, ◌<◌, Bool, Option, none, some, List, [], ◌∷◌, arith, leb, ltb, unwrap_or,
  if◌then◌else◌, Bool-cases, inl, inr,
}

-- The column `last_trade_index`, as the two statements below write it: it is not negative. `User::save`
-- (models.rs:53-66) writes it too, but nothing calls it.
abbrev pub LastIndex : Type 0
LastIndex = Option ℕ

-- MAX(COALESCE(last_trade_index, 0), ?)
unfoldable pub update_last_trade_index : ℕ → LastIndex → LastIndex
update_last_trade_index idx last =
    let old = unwrap_or last 0 in some (if ltb old idx then idx else old)

-- The check of `derive_trade_keys`: an index beyond `u32::MAX` has no key.
abbrev pub is_derivable : ℕ → Bool
is_derivable idx = leb idx (2 ^ 32 - 1)

-- The column is committed before the keys are derived, so an index without a key is used up. The
-- result is the index, or `none` for the `Err` of the derivation.
unfoldable pub reserve_next_trade_index : ℕ → LastIndex → LastIndex × Option ℕ
reserve_next_trade_index none_base last =
    let next = suc (unwrap_or last none_base) in
    (some next, if is_derivable next then some next else none)

-- What the order flows do to the column, in any order: reserve an index, or raise the column.
pub data IndexOp : Type 0 where
  reserve raise : ℕ → IndexOp

abbrev pub reserved_first : Option ℕ → List ℕ → List ℕ
reserved_first none rest = rest
reserved_first (some i) rest = i ∷ rest

-- The indices that a sequence of operations hands out, in order.
unfoldable pub reserved : List IndexOp → LastIndex → List ℕ
reserved [] last = []
reserved (reserve base ∷ ops) last =
    let r = reserve_next_trade_index base last in reserved_first r.1 (reserved ops r.0)
reserved (raise idx ∷ ops) last = reserved ops (update_last_trade_index idx last)

-- Each index is greater than `low` and than all the indices before it, and within the range that keys
-- are derived for.
unfoldable pub Ascending : ℕ → List ℕ → Type 0
Ascending low [] = Unit
Ascending low (i ∷ is) = (low < i) × (i ≤ 2 ^ 32 - 1) × Ascending i is

Ascending-weaken : (low high : ℕ) (is : List ℕ) → low ≤ high → Ascending high is → Ascending low is
unfolding Ascending
Ascending-weaken low high [] h a = tt
Ascending-weaken low high (i ∷ is) h (a, b, c) = (omega (arith, h, a), b, c)

-- No trade key is ever handed out twice: whatever operations run, in whatever order, the indices that
-- they hand out ascend from the column's value, within the range that keys are derived for.
pub reserved-Ascending :
    (ops : List IndexOp) (last : LastIndex) → Ascending (unwrap_or last 0) (reserved ops last)
unfolding reserved Ascending reserve_next_trade_index update_last_trade_index
reserved-Ascending [] last = tt
reserved-Ascending (raise idx ∷ ops) last =
    let new = update_last_trade_index idx last in
    Ascending-weaken (unwrap_or last 0) (unwrap_or new 0) (reserved ops new) (ground arith)
      (reserved-Ascending ops new)
reserved-Ascending (reserve base ∷ ops) last =
    let next = suc (unwrap_or last base) in
    let rest = reserved-Ascending ops (some next) in
    let above : unwrap_or last 0 < next = ground arith in
    elim (Bool-cases (is_derivable next)) [
      | inl q ↦ rw q (above, ground (arith, q), rest)
      | inr q ↦ rw q (
          Ascending-weaken (unwrap_or last 0) next (reserved ops (some next)) (omega (arith, above))
            rest)
    ]
