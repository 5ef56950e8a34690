-- ===== src/Examples/Router.antt =====
-- util/chat_security.rs and util/chat_listener.rs on concrete inputs.
use mostrix.Prelude.{ℕ, ◌≤◌, ◌≡◌, refl, none, some, [], ◌∷◌, count, arith}
use mostrix.Dm.{ChatKeyId, ChatRouterCmd, track_chat_key}
use mostrix.Chat.{OuterIdLru, insert_outer_id, ChatKeys, Targets, apply_chat_router_cmd, evict}
use mostrix.Chat.Seen as Seen
use mostrix.Chat.Seen.{occurrences, without_oldest, insert-Valid}
use mostrix.Chat.Router as Router
use mostrix.Chat.Router.{has_key, is_at, is_mute, command-Valid}

-- Two ids seen, and no room for a third.
abbrev seen : OuterIdLru
seen = record { set = 5 ∷ 4 ∷ []; order = 4 ∷ 5 ∷ []; cap = 2 }

seen-once : (i : ℕ) → occurrences i (4 ∷ 5 ∷ []) ≤ 1
seen-once i = ground arith

seen-set : (i : ℕ) → occurrences i (5 ∷ 4 ∷ []) ≡ occurrences i (4 ∷ 5 ∷ [])
seen-set i = ground arith

seen-Valid : Seen.Valid seen
seen-Valid = record {
  positive_cap = omega arith;
  bounded = omega arith;
  once = seen-once;
  once_set = seen-set;
}

insert-Valid_example : Seen.Valid (insert_outer_id 6 seen).0
insert-Valid_example = insert-Valid 6 seen seen-Valid

forgotten_test : (insert_outer_id 6 seen).0.order ≡ 5 ∷ 6 ∷ []
unfolding insert_outer_id evict
forgotten_test = refl

abbrev chat_keys : ChatKeys
chat_keys = record {
  keys_from_shared_hex = λ s. some 7;
  public_key = λ k. k;
  chat_keys_from_ecdh = λ k. some 8;
}

abbrev targets : Targets
targets =
    (
      7,
      record {
        key_id = ChatKeyId.order 1;
        shared_keys = 7;
        sign_pubkey = 8;
        local_trade_pubkey = some 5;
        allowed_signers = 5 ∷ 6 ∷ [];
      },
    )
    ∷ []

targets_unique : (k : ℕ) → count (is_at k) targets ≤ 1
targets_unique k = ground arith

targets-Valid : Router.Valid targets
targets-Valid = record { unique = targets_unique; signed = refl }

abbrev track_again : ChatRouterCmd
track_again = track_chat_key (ChatKeyId.order 1) "shared" (some 5) (5 ∷ []) none

command-Valid_example : Router.Valid (apply_chat_router_cmd chat_keys 100 track_again targets).0
command-Valid_example = command-Valid chat_keys 100 track_again targets targets-Valid
