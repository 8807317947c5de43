-- ===== src/Common/Vrf.antt =====
-- packages/common/src/vrf.rs. The host's `sha256` is a parameter, a function of bytes that returns
-- 32 bytes; the random salt of `env.prng()` is an argument of `init_vrf`, and the host's check of a
-- signature, which traps on a false one, an argument of `verify_vrf`.
pub mod Replay
use Prim.Native.Nat.{bit_xor}
use moistello_contracts.Prelude.{
  ℕ, zero, suc, ◌+◌, ◌*◌, ◌/◌, ◌%◌, Bool, true, false, ◌||◌, not, ◌==◌, leb, ltb, if◌then◌else◌,
  Option, none, some, List, [], ◌∷◌, ◌++◌, push_back, checked_add_u32, checked_add_u64,
}
use moistello_contracts.Soroban.Contract.{
  Address, Env, M, ◌>>=◌, ◌>>◌, pure, load, ok_or, fail_if, gets, modify, require, require_auth,
}

pub data VrfError : Type 0 where
  not_initialized invalid_proof already_initialized overflow unauthorized no_pending_rotation
        activation_not_ready replay :
      VrfError

pub data VrfEvent : Type 0 where
  vrf_evaluated : ℕ → ℕ → ℕ → VrfEvent
  vrf_fulfilled : ℕ → ℕ → VrfEvent
  vrf_key_rotation_proposed : List ℕ → ℕ → VrfEvent
  vrf_key_rotated : List ℕ → VrfEvent

-- The entries of the instance storage, whose keys start with "vrf_". A `BytesN` is a list of bytes.
pub record Vrf : Type 0 where
  pub admin_key : Option (List ℕ)
  pub salt : Option (List ℕ)
  pub counter : Option ℕ
  pub owner : Option Address
  pub pending_key : Option (List ℕ)
  pub pending_at : Option ℕ
  pub nonce : Option ℕ
  pub events : List VrfEvent

abbrev pub publish_vrf : VrfEvent → M Vrf VrfError (Unit {0})
publish_vrf e = modify (λ v. record v { events = push_back v.events e })

abbrev pub is_set {ℓ} : {A : Type ℓ} → Option A → Bool
is_set none = false
is_set (some a) = true

unfoldable pub init_vrf : Option (List ℕ) → Address → List ℕ → M Vrf VrfError (Unit {0})
init_vrf admin_key owner salt = do
  again ← gets (λ v. is_set v.admin_key || is_set v.owner)
  fail_if again already_initialized
  modify (λ v. record v {
    salt = some salt;
    counter = some 0;
    owner = some owner;
    admin_key = elim admin_key [ none ↦ v.admin_key | some key ↦ some key ];
  })

unfoldable pub require_owner : Address → M Vrf VrfError (Unit {0})
require_owner caller = do
  owner ← load (λ v. v.owner) unauthorized
  fail_if (not (caller == owner)) unauthorized

unfoldable pub propose_key_rotation : Env → Address → List ℕ → ℕ → M Vrf VrfError (Unit {0})
propose_key_rotation env caller new_key activation_delay_secs = do
  require_auth env caller
  require_owner caller
  activation_time ← ok_or (checked_add_u64 env.timestamp activation_delay_secs) overflow
  modify (λ v. record v { pending_key = some new_key; pending_at = some activation_time })
  publish_vrf (vrf_key_rotation_proposed new_key activation_time)

unfoldable pub activate_key_rotation : Env → Address → M Vrf VrfError (Unit {0})
activate_key_rotation env caller = do
  require_auth env caller
  require_owner caller
  pending_key ← load (λ v. v.pending_key) no_pending_rotation
  activation_time ← load (λ v. v.pending_at) no_pending_rotation
  fail_if (ltb env.timestamp activation_time) activation_not_ready
  modify (λ v. record v { admin_key = some pending_key; pending_key = none; pending_at = none })
  publish_vrf (vrf_key_rotated pending_key)

-- `u32::to_le_bytes`
abbrev pub to_le_bytes : ℕ → List ℕ
to_le_bytes n = n % 256 ∷ n / 256 % 256 ∷ n / 65536 % 256 ∷ n / 16777216 % 256 ∷ []

abbrev pub hash_to_bytes : ℕ → List ℕ → ℕ → List ℕ
hash_to_bytes input_seed salt counter = to_le_bytes input_seed ++ (salt ++ to_le_bytes counter)

-- The loop over the chunks of four bytes.
abbrev pub xor_chunks : ℕ → List ℕ → ℕ
xor_chunks result (a ∷ b ∷ c ∷ d ∷ rest) =
    xor_chunks (bit_xor result (a + b * 256 + c * 65536 + d * 16777216)) rest
xor_chunks result bytes = result

module _ (sha256 : List ℕ → List ℕ) where
  unfoldable pub compute_vrf_hash : ℕ → List ℕ → ℕ → ℕ
  compute_vrf_hash input_seed salt counter =
      xor_chunks 0 (sha256 (hash_to_bytes input_seed salt counter))

  -- A seed that has been used, or a smaller one, is a replay.
  abbrev pub is_replay : ℕ → Vrf → Bool
  is_replay input_seed v = elim v.nonce [
    | none ↦ false
    | some last_nonce ↦ leb input_seed last_nonce
  ]

  unfoldable pub evaluate_vrf : ℕ → M Vrf VrfError ℕ
  evaluate_vrf input_seed = do
    replayed ← gets (is_replay input_seed)
    fail_if replayed replay
    modify (λ v. record v { nonce = some input_seed })
    counter ← load (λ v. v.counter) not_initialized
    salt ← load (λ v. v.salt) not_initialized
    let output = compute_vrf_hash input_seed salt counter
    next_counter ← ok_or (checked_add_u32 counter 1) overflow
    modify (λ v. record v { counter = some next_counter })
    publish_vrf (vrf_evaluated input_seed output counter)
    publish_vrf (vrf_fulfilled counter input_seed)
    pure output

  -- The host's check of the signature by the key on the message.
  unfoldable pub verify_vrf :
      (List ℕ → List ℕ → List ℕ → Bool) → ℕ → ℕ → ℕ → List ℕ → M Vrf VrfError Bool
  verify_vrf ed25519_verify input_seed vrf_output counter signature v = elim v.admin_key [
    | none ↦ pure false v
    | some admin_key ↦ elim v.salt [
      | none ↦ pure false v
      | some salt ↦
          if compute_vrf_hash input_seed salt counter == vrf_output
          then (require (ed25519_verify admin_key (hash_to_bytes input_seed salt counter) signature)
                >> pure true)
              v
          else pure false v
    ]
  ]

  -- The loop of `shuffle_positions` from i, with `left` turns to go.
  unfoldable pub shuffle_from : ℕ → ℕ → ℕ → ℕ → M Vrf VrfError (List ℕ)
  shuffle_from n base_nonce i zero = pure []
  shuffle_from n base_nonce i (suc left) = do
    seed ← ok_or (checked_add_u32 base_nonce i) overflow
    vrf_val ← evaluate_vrf seed
    rest ← shuffle_from n base_nonce (suc i) left
    pure (vrf_val % n ∷ rest)

  unfoldable pub shuffle_positions : ℕ → ℕ → M Vrf VrfError (List ℕ)
  shuffle_positions n base_nonce = shuffle_from n base_nonce 0 n

  unfoldable pub random_in_range : ℕ → ℕ → M Vrf VrfError ℕ
  random_in_range max nonce =
      if max == 0 then pure 0 else (do vrf_val ← evaluate_vrf nonce; pure (vrf_val % max))
