-- ===== src/Relay/Cursor.antt =====
-- util/order_utils/relay_order_db_reconcile.rs: the positions that the round-robin cursor passes.
use mostrix.Prelude.{
  ℕ, suc, zero, ◌+◌, ◌-◌, ◌%◌, ◌≤◌, ◌<◌, ◌≡◌, min, refl, Bool, true, any, ◌==◌, ==_iff, arith,
  if◌then◌else◌, length, Bool-cases, inl, inr, sym, ap, subst, ◌∙◌, dec_lt, leb,
}
use native.Mathlib.Nat as Nat
use mostrix.Relay.{window, targeted_relay_reconcile_max_per_tick}

-- The positions of one tick, and the cursor after it.
abbrev pub take_of : ℕ → ℕ
take_of len = min targeted_relay_reconcile_max_per_tick len

abbrev pub visits : ℕ → ℕ → ℕ → Bool
visits j cursor len = any (λ k. k == j) (window (cursor % len) len 0 (take_of len))

abbrev pub next_cursor : ℕ → ℕ → ℕ
next_cursor len cursor = (cursor % len + take_of len) % len

abbrev pub cursor_after : ℕ → ℕ → ℕ → ℕ
cursor_after len zero cursor = cursor
cursor_after len (suc k) cursor = cursor_after len k (next_cursor len cursor)

-- How far ahead of the cursor a position is, around the list.
abbrev distance : ℕ → ℕ → ℕ → ℕ
distance len c j = if leb c j then j - c else (j + len) - c

mod_once : (x len : ℕ) → len ≤ x → x < len + len → x % len ≡ x - len
mod_once x len h k = Nat.mod-eq-sub-mod h ∙ Nat.mod-eq_of_lt (omega (arith, h, k))

window-length : (start len from n : ℕ) → length (window start len from n) ≡ n
unfolding window
window-length start len from zero = refl
window-length start len from (suc n) = ap suc (window-length start len (suc from) n)

window-hit :
    (start len j off : ℕ) (from n : ℕ)
    → from ≤ off
    → off < from + n
    → (start + off) % len ≡ j
    → any (λ k. k == j) (window start len from n) ≡ true
unfolding window
window-hit start len j off from zero a b h = absurd (omega (arith, a, b))
window-hit start len j off from (suc n) a b h = elim (Bool-cases ((start + from) % len == j)) [
  | inl q ↦ rw q refl
  | inr q ↦
      let later : suc from ≤ off = elim (dec_lt from off) [
        | yes l ↦ omega (arith, l)
        | no l ↦
            let e : off ≡ from = omega (arith, a, l) in
            let t : ((start + from) % len == j) ≡ true =
              ((==_iff ((start + from) % len) j).1 (subst (λ o. (start + o) % len ≡ j) e h)) in
            ground (arith, q, t)
      ] in
      rw q (window-hit start len j off (suc from) n later (omega (arith, b)) h)
]

module _ (len j : ℕ) (h : j < len) where
  distance-lands : (c : ℕ) → c < len → (c + distance len c j) % len ≡ j
  distance-lands c k = elim (dec_lt j c) [
    | no l ↦ let e : c + distance len c j ≡ j = ground (arith, l) in rw e (Nat.mod-eq_of_lt h)
    | yes l ↦
        let e : c + distance len c j ≡ j + len = ground (arith, l, k) in
        rw e (Nat.add-mod_right j len ∙ Nat.mod-eq_of_lt h)
  ]

  distance-lt : (c : ℕ) → c < len → distance len c j < len
  distance-lt c k = ground (arith, h, k)

  near : (c : ℕ) → c < len → distance len c j < take_of len → visits j c len ≡ true
  near c k d =
      let e : c % len ≡ c = Nat.mod-eq_of_lt k in
      rw e (
        window-hit c len j (distance len c j) 0 (take_of len) (omega arith) (omega (arith, d))
          (distance-lands c k))

  next-lt : (c : ℕ) → next_cursor len c < len
  next-lt c = Nat.mod-lt (c % len + take_of len) (omega (arith, h))

  next-distance :
      (c : ℕ)
      → c < len
      → take_of len ≤ distance len c j
      → distance len (next_cursor len c) j + take_of len ≡ distance len c j
  next-distance c k d =
      let e : c % len ≡ c = Nat.mod-eq_of_lt k in
      let t : take_of len ≤ len = ground arith in
      elim (dec_lt (c + take_of len) len) [
        | yes l ↦
            let n : next_cursor len c ≡ c + take_of len = rw e (Nat.mod-eq_of_lt l) in
            rw n (ground (arith, h, k, d, l, t))
        | no l ↦
            let n : next_cursor len c ≡ (c + take_of len) - len =
              rw e (mod_once (c + take_of len) len (omega (arith, l)) (omega (arith, k, t))) in
            rw n (ground (arith, h, k, d, l, t))
      ]

  reached :
      (n c : ℕ)
      → c < len
      → distance len c j ≤ n
      → (k : ℕ) × (k ≤ n) × (visits j (cursor_after len k c) len ≡ true)
  reached zero c k d = (0, omega arith, near c k (ground (arith, h, d)))
  reached (suc n) c k d = elim (dec_lt (distance len c j) (take_of len)) [
    | yes l ↦ (0, omega arith, near c k l)
    | no l ↦
        let t : 1 ≤ take_of len = ground (arith, h) in
        let x =
          reached n (next_cursor len c) (next-lt c)
            (omega (arith, next-distance c k (omega (arith, l)), t, d)) in
        (suc x.0, omega (arith, x.1), x.2)
  ]

  visits-mod : (c : ℕ) → visits j (c % len) len ≡ visits j c len
  visits-mod c = rw (Nat.mod-mod c len) refl

  after-mod :
      (k c : ℕ) → visits j (cursor_after len k (c % len)) len ≡ visits j (cursor_after len k c) len
  after-mod zero c = visits-mod c
  after-mod (suc k) c = rw (Nat.mod-mod c len) refl

  pub cursor_reaches : (c : ℕ) → (k : ℕ) × (k < len) × (visits j (cursor_after len k c) len ≡ true)
  cursor_reaches c =
      let b : c % len < len = Nat.mod-lt c (omega (arith, h)) in
      let x = reached (len - 1) (c % len) b (omega (arith, distance-lt (c % len) b)) in
      (x.0, omega (arith, x.1, h), sym (after-mod x.0 c) ∙ x.2)
