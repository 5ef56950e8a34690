-- ===== src/OrderStatus/Guard.antt =====
-- The guard of util/order_utils/helper.rs as an order on statuses.
use mostrix.Prelude.{
  ℕ, ◌≡◌, ◌↔◌, refl, true, false, Option, some, arith, ◌⊎◌, inl, inr, Bool-cases, List, [], ◌∷◌,
  if◌then◌else◌,
}
use mostrix.Protocol.{Kind, Status}
use mostrix.OrderStatus.{
  is_terminal_trade_status, status_phase_rank_for_actor, should_apply_status_transition,
  rank_advances,
}

-- What an accepted transition can be.
abbrev pub Accepted : Option Kind → Status → Status → Type 0
Accepted kind a b =
    (a ≡ b)
    ⊎ ((is_terminal_trade_status a ≡ false)
        × ((is_terminal_trade_status b ≡ true)
            ⊎ (rank_advances (status_phase_rank_for_actor a kind)
                  (status_phase_rank_for_actor b kind)
                ≡ true)))

module _ (kind : Option Kind) (a b : Status) where
  pub accepted : should_apply_status_transition (some a) b kind ≡ true → Accepted kind a b
  unfolding should_apply_status_transition
  accepted h = ground arith

  pub accepts : Accepted kind a b → should_apply_status_transition (some a) b kind ≡ true
  unfolding should_apply_status_transition
  accepts h = ground arith

-- Phase ranks are compared as numbers, so the comparison is transitive.
rank_advances_trans :
    (a b c : Option ℕ)
    → rank_advances a b ≡ true
    → rank_advances b c ≡ true
    → rank_advances a c ≡ true
rank_advances_trans a b c p q = ground arith

-- Whatever moves the guard accepts one after the other, it accepts in one step.
pub should_apply_trans :
    (a b c : Status) (kind : Option Kind)
    → should_apply_status_transition (some a) b kind ≡ true
    → should_apply_status_transition (some b) c kind ≡ true
    → should_apply_status_transition (some a) c kind ≡ true
should_apply_trans a b c kind p q = ground (
  arith,
  accepted kind a b p,
  accepted kind b c q,
  accepts kind a c,
  rank_advances_trans (status_phase_rank_for_actor a kind) (status_phase_rank_for_actor b kind)
      (status_phase_rank_for_actor c kind),
)

pub should_apply_refl :
    (a : Status) (kind : Option Kind) → should_apply_status_transition (some a) a kind ≡ true
should_apply_refl a kind = accepts kind a a (inl refl)

-- From a terminal status exactly that status is accepted; from any other, every terminal one is.
pub should_apply_terminal :
    (a b : Status) (kind : Option Kind)
    → ((is_terminal_trade_status a ≡ true)
        → (should_apply_status_transition (some a) b kind ≡ true) ↔ (a ≡ b))
      × ((is_terminal_trade_status a ≡ false)
          → is_terminal_trade_status b ≡ true
          → should_apply_status_transition (some a) b kind ≡ true)
should_apply_terminal a b kind = (
  λ t. (λ h. ground (arith, accepted kind a b h), λ e. accepts kind a b (inl e)),
  λ t u. accepts kind a b (inr (t, inl u)),
)

-- The guard on a sequence of candidates, as status writers apply it one after the other.
unfoldable pub settle : Option Kind → Status → List Status → Status
settle kind s [] = s
settle kind s (c ∷ cs) =
    settle kind (if should_apply_status_transition (some s) c kind then c else s) cs

one_step :
    (kind : Option Kind) (s c : Status)
    → should_apply_status_transition
        (some s)
        (if should_apply_status_transition (some s) c kind then c else s)
        kind
      ≡ true
one_step kind s c = elim (Bool-cases (should_apply_status_transition (some s) c kind)) [
  | inl yes_it ↦ rw yes_it yes_it
  | inr no_it ↦ rw no_it (should_apply_refl s kind)
]

-- Whatever candidates arrive, in whatever order, the final status is one that the guard accepts
-- from the first status.
pub settle-accepted :
    (kind : Option Kind) (s : Status) (cs : List Status)
    → should_apply_status_transition (some s) (settle kind s cs) kind ≡ true
unfolding settle
settle-accepted kind s [] = should_apply_refl s kind
settle-accepted kind s (c ∷ cs) =
    let t : Status = if should_apply_status_transition (some s) c kind then c else s in
    should_apply_trans s t (settle kind t cs) kind (one_step kind s c) (settle-accepted kind t cs)
