-- ===== src/Chat.antt =====
-- util/chat_security.rs and util/chat_listener.rs: the bounded set of outer event ids, and the keys that
-- the chat listener tracks.
pub mod Seen
pub mod Router
use mostrix.Prelude.{
  ℕ, Bool, true, false, not, ◌&&◌, String, Option, none, some, List, [], ◌∷◌, ◌++◌, length, retain,
  any, is_some_and, ltb, min, ◌==◌, if◌then◌else◌, same,
}
use mostrix.Protocol.{Uuid, PublicKey, Keys}
use mathlib.Core.Option
use mostrix.Dm.{ChatKeyId, ChatKeyId-discrete, ChatRouterCmd, track_chat_key, untrack_chat_key}

abbrev pub EventId : Type 0
EventId = ℕ

-- The set as a list of its members; `order` is oldest first.
pub record OuterIdLru : Type 0 where
  pub set : List EventId
  pub order : List EventId
  pub cap : ℕ

abbrev pub contains : EventId → List EventId → Bool
contains i s = any (λ x. x == i) s

-- `OuterIdLru::new`
unfoldable pub new_lru : ℕ → OuterIdLru
new_lru cap = record { set = []; order = []; cap = if cap == 0 then 1 else cap }

-- The `while` loop: the front is popped as long as the queue is longer than the capacity.
unfoldable pub evict : ℕ → List EventId → List EventId → List EventId × List EventId
evict cap [] set = ([], set)
evict cap (x ∷ xs) set =
    let rest = evict cap xs (retain (λ y. not (y == x)) set) in
    if ltb cap (length (x ∷ xs)) then rest else (x ∷ xs, set)

-- `OuterIdLru::insert`, with its result.
unfoldable pub insert_outer_id : EventId → OuterIdLru → OuterIdLru × Bool
insert_outer_id i l =
    if contains i l.set
    then (l, false)
    else (let e = evict l.cap (l.order ++ i ∷ []) (i ∷ l.set) in
        (record l { order = e.0; set = e.1 }, true))

abbrev pub len_outer : OuterIdLru → ℕ
len_outer l = length l.set

-- What the code takes from nostr_sdk and mostro_core: the keys of a shared secret, and the public part
-- of its signing key.
pub record ChatKeys : Type 0 where
  pub keys_from_shared_hex : String → Option Keys
  pub public_key : Keys → PublicKey
  pub chat_keys_from_ecdh : Keys → Option PublicKey

pub record ChatTarget : Type 0 where
  pub key_id : ChatKeyId
  pub shared_keys : Keys
  pub sign_pubkey : PublicKey
  pub local_trade_pubkey : Option PublicKey
  pub allowed_signers : List PublicKey

pub record PendingHydration : Type 0 where
  pub target_pubkey : PublicKey
  pub shared_keys : Keys
  pub since : Option ℕ

pub record CmdOutcome : Type 0 where
  pub needs_resubscribe : Bool
  pub hydrate : Option PendingHydration
  pub tracked : Option ChatKeyId
  pub untracked : Option ChatKeyId

-- The map from a shared public key to its target.
abbrev pub Targets : Type 0
Targets = List (PublicKey × ChatTarget)

unfoldable pub find_target : PublicKey → Targets → Option ChatTarget
find_target k [] = none
find_target k (x ∷ xs) = let rest = find_target k xs in if x.0 == k then some x.1 else rest

-- `HashMap::insert`
unfoldable pub put_target : PublicKey → ChatTarget → Targets → Targets
put_target k t ts = (k, t) ∷ retain (λ x. not (x.0 == k)) ts

abbrev pub same_key : ChatKeyId → ChatKeyId → Bool
same_key a b = same ChatKeyId-discrete a b

abbrev pub nothing_done : CmdOutcome
nothing_done = record {
  needs_resubscribe = false;
  hydrate = none;
  tracked = none;
  untracked = none;
}

-- `clamp_chat_since_cursor`
abbrev pub clamp_chat_since_cursor : ℕ → ℕ → ℕ
clamp_chat_since_cursor accepted_ts local_now = min accepted_ts local_now

module _ (c : ChatKeys) (now : ℕ) where
  open c use {keys_from_shared_hex, public_key, chat_keys_from_ecdh}

  abbrev track_new : ChatTarget → Option ℕ → Targets → Targets × CmdOutcome
  track_new t since ts =
      let k = public_key t.shared_keys in
      if is_some_and (find_target k ts) (λ old. same_key old.key_id t.key_id)
      then (ts, nothing_done)
      else (
        put_target k t ts,
        record {
          needs_resubscribe = true;
          hydrate = some (record {
            target_pubkey = k;
            shared_keys = t.shared_keys;
            since = Option.map (λ s. clamp_chat_since_cursor s now) since;
          });
          tracked = some t.key_id;
          untracked = none;
        },
      )

  abbrev track_signed :
      ChatKeyId
      → Option PublicKey
      → List PublicKey
      → Option ℕ
      → Keys
      → Option PublicKey
      → Targets
      → Targets × CmdOutcome
  track_signed key_id local allowed since keys none ts = (ts, nothing_done)
  track_signed key_id local allowed since keys (some sign) ts =
      track_new
        (record {
          key_id = key_id;
          shared_keys = keys;
          sign_pubkey = sign;
          local_trade_pubkey = local;
          allowed_signers = allowed;
        })
        since ts

  abbrev track_keys :
      ChatKeyId
      → Option PublicKey
      → List PublicKey
      → Option ℕ
      → Option Keys
      → Targets
      → Targets × CmdOutcome
  track_keys key_id local allowed since none ts = (ts, nothing_done)
  track_keys key_id local allowed since (some keys) ts =
      track_signed key_id local allowed since keys (chat_keys_from_ecdh keys) ts

  unfoldable pub apply_chat_router_cmd : ChatRouterCmd → Targets → Targets × CmdOutcome
  apply_chat_router_cmd (track_chat_key key_id hex local [] since) ts = (ts, nothing_done)
  apply_chat_router_cmd (track_chat_key key_id hex local (a ∷ allowed) since) ts =
      track_keys key_id local (a ∷ allowed) since (keys_from_shared_hex hex) ts
  apply_chat_router_cmd (untrack_chat_key key_id) ts =
      let kept = retain (λ x. not (same_key x.1.key_id key_id)) ts in
      let removed = not (length kept == length ts) in
      (
        kept,
        record {
          needs_resubscribe = removed;
          hydrate = none;
          tracked = none;
          untracked = if removed then some key_id else none;
        },
      )
