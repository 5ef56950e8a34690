-- ===== src/Chat/Router.antt =====
-- util/chat_listener.rs: `apply_chat_router_cmd` on the keys that are tracked.
use mostrix.Prelude.{
  ℕ, ◌≤◌, ◌≡◌, refl, sym, subst, Bool, false, not, String, Option, List, [], ◌∷◌, length, retain,
  count, arith, Bool-cases, Option-cases, inl, inr, ◌⊎◌, ◌==◌, is_some_and,
}
use mostrix.Protocol.{PublicKey}
use mostrix.Dm.{ChatKeyId, ChatRouterCmd, track_chat_key, untrack_chat_key}
use mostrix.Chat.{
  ChatKeys, ChatTarget, CmdOutcome, Targets, find_target, put_target, same_key, nothing_done,
  apply_chat_router_cmd,
}

abbrev pub is_at : PublicKey → PublicKey × ChatTarget → Bool
is_at k x = x.0 == k

abbrev pub has_key : ChatKeyId → PublicKey × ChatTarget → Bool
has_key i x = same_key x.1.key_id i

-- A chat without allowed signers would accept a message from nobody.
abbrev pub is_mute : PublicKey × ChatTarget → Bool
is_mute x = length x.1.allowed_signers == 0

-- One target for each shared key, each with somebody allowed to sign.
pub record Valid (ts : Targets) : Type 0 where
  pub unique : (k : PublicKey) → count (is_at k) ts ≤ 1
  pub signed : count is_mute ts ≡ 0

module _ (q : PublicKey × ChatTarget → Bool) where
  count-retain_le :
      (p : PublicKey × ChatTarget → Bool) (ts : Targets) → count p (retain q ts) ≤ count p ts
  count-retain_le p [] = omega arith
  count-retain_le p (x ∷ xs) = ground (arith, count-retain_le p xs)

  retain-Valid : (ts : Targets) → Valid ts → Valid (retain q ts)
  retain-Valid ts w = record {
    unique = λ k. omega (arith, count-retain_le (is_at k) ts, w.unique k);
    signed = omega (arith, count-retain_le is_mute ts, w.signed);
  }

count-retain_off :
    (p : PublicKey × ChatTarget → Bool) (ts : Targets) → count p (retain (λ x. not (p x)) ts) ≡ 0
count-retain_off p [] = refl
count-retain_off p (x ∷ xs) = ground (arith, count-retain_off p xs)

put-Valid :
    (k : PublicKey) (t : ChatTarget) (ts : Targets)
    → is_mute (k, t) ≡ false
    → Valid ts
    → Valid (put_target k t ts)
unfolding put_target
put-Valid k t ts m w =
    let rest = retain-Valid (λ x. not (is_at k x)) ts w in
    record {
      unique = λ j. elim (Bool-cases (k == j)) [
        | inr n ↦ rw n (rest.unique j)
        | inl n ↦
            let e : k ≡ j = ground (arith, n) in
            subst (λ y. count (is_at y) ((k, t) ∷ retain (λ x. not (is_at k x)) ts) ≤ 1) e
              (ground (arith, count-retain_off (is_at k) ts))
      ];
      signed = rw m rest.signed;
    }

module _ (c : ChatKeys) (now : ℕ) where
  -- What a command does to the targets.
  track-cases :
      (i : ChatKeyId) (hex : String) (local : Option PublicKey) (allowed : List PublicKey)
      (since : Option ℕ) (ts : Targets)
      → (apply_chat_router_cmd c now (track_chat_key i hex local allowed since) ts
          ≡ (ts, nothing_done))
        ⊎ ((k : PublicKey) × (t : ChatTarget) × ((apply_chat_router_cmd c now
                (track_chat_key i hex local allowed since)
                ts).0
              ≡ put_target k t ts)
            × (is_mute (k, t) ≡ false)
            × (t.key_id ≡ i))
  unfolding apply_chat_router_cmd
  track-cases i hex local [] since ts = inl refl
  track-cases i hex local (a ∷ allowed) since ts =
      elim (Option-cases (c.keys_from_shared_hex hex)) [
        | inl n ↦ inl (rw n refl)
        | inr (keys, n) ↦ elim (Option-cases (c.chat_keys_from_ecdh keys)) [
          | inl m ↦ inl (rw (n, m) refl)
          | inr (sign, m) ↦
              elim (Bool-cases
                (is_some_and (find_target (c.public_key keys) ts) (λ old. same_key old.key_id i))) [
                  | inl b ↦ inl (rw (n, m, b) refl)
                  | inr b ↦ inr (
                    c.public_key keys,
                    record {
                      key_id = i;
                      shared_keys = keys;
                      sign_pubkey = sign;
                      local_trade_pubkey = local;
                      allowed_signers = a ∷ allowed;
                    },
                    rw (n, m, b) refl,
                    ground arith,
                    refl,
                  )
                ]
        ]
      ]

  -- Every command keeps one target for each shared key, each with a signer that is allowed.
  pub command-Valid :
      (cmd : ChatRouterCmd) (ts : Targets) → Valid ts → Valid (apply_chat_router_cmd c now cmd ts).0
  command-Valid (track_chat_key i hex local allowed since) ts w =
      elim (track-cases i hex local allowed since ts) [
        | inl q ↦ subst (λ (r : Targets × CmdOutcome). Valid r.0) (sym q) w
        | inr (k, t, q, m, e) ↦ subst Valid (sym q) (put-Valid k t ts m w)
      ]
  command-Valid (untrack_chat_key i) ts w =
      unfold apply_chat_router_cmd in retain-Valid (λ x. not (has_key i x)) ts w
