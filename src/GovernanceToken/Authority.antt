-- ===== src/GovernanceToken/Authority.antt =====
-- Who may call what: the authorization of packages/governance-token/src/contract.rs.
use Prim.Native.String.{String}
use moistello_contracts.Prelude.{
  ◌≡◌, Bool, true, false, Option, none, some, arith, ◌==◌, refl, Bool-cases, ◌⊎◌, inl, inr, ℕ,
}
use moistello_contracts.Soroban.Result.{Result}
use moistello_contracts.Soroban.Contract.{Address, Env, fail_if}
use moistello_contracts.Soroban.Outcome.{
  Post, after_ok_or, after_fail_if, Post-absurd, Post-map, Post-trivial,
}
use moistello_contracts.Soroban.Keeps.{Refuses, refusing}
use moistello_contracts.Common.Pause
use moistello_contracts.Common.Pause.{Keeps-when_not_paused}
use moistello_contracts.GovernanceToken.Types.{Store}
use moistello_contracts.GovernanceToken.Views.{is_initialized, require_admin}
use moistello_contracts.GovernanceToken.Transfers
use moistello_contracts.GovernanceToken.Supply
use moistello_contracts.GovernanceToken.Admin
use moistello_contracts.GovernanceToken.Calls.{Call, apply}

-- The address that a call names as the one who makes it.
abbrev pub signer : Call → Address
signer (Call.initialize admin name symbol decimals) = admin
signer (Call.transfer from to amount) = from
signer (Call.transfer_from spender from to amount) = spender
signer (Call.approve owner spender amount expiration) = owner
signer (Call.mint admin to amount) = admin
signer (Call.burn from amount) = from
signer (Call.burn_from spender from amount) = spender
signer (Call.admin_burn_from admin from amount) = admin
signer (Call.clawback admin from amount) = admin
signer (Call.freeze admin account) = admin
signer (Call.unfreeze admin account) = admin
signer (Call.set_admin admin new_admin) = admin
signer (Call.pause admin) = admin
signer (Call.unpause admin) = admin
signer (Call.set_allowlist_mode admin enabled) = admin
signer (Call.add_to_allowlist admin account) = admin
signer (Call.remove_from_allowlist admin account) = admin

-- Every call but `initialize` asks for the authorization of its caller.
abbrev pub is_signed : Call → Bool
is_signed (Call.initialize admin name symbol decimals) = false
is_signed c = true

-- The calls that only the stored administrator may make.
abbrev pub is_administrative : Call → Bool
is_administrative (Call.mint admin to amount) = true
is_administrative (Call.admin_burn_from admin from amount) = true
is_administrative (Call.clawback admin from amount) = true
is_administrative (Call.freeze admin account) = true
is_administrative (Call.unfreeze admin account) = true
is_administrative (Call.set_admin admin new_admin) = true
is_administrative (Call.pause admin) = true
is_administrative (Call.unpause admin) = true
is_administrative (Call.set_allowlist_mode admin enabled) = true
is_administrative (Call.add_to_allowlist admin account) = true
is_administrative (Call.remove_from_allowlist admin account) = true
is_administrative c = false

ruleset guards = (refusing, Keeps-when_not_paused)

unsigned-Refuses :
    (env : Env) (c : Call)
    → is_signed c ≡ true
    → env.authorized (signer c) ≡ false
    → Refuses {S = Store} (λ _. Unit {0}) (apply env c)
unfolding Transfers.transfer Transfers.transfer_from Transfers.approve Supply.mint Supply.burn
    Supply.burn_from Supply.admin_burn_from Supply.clawback Admin.freeze Admin.unfreeze
    Admin.set_admin Admin.pause Admin.unpause Admin.set_allowlist_mode Admin.add_to_allowlist
    Admin.remove_from_allowlist Pause.pause Pause.unpause
unsigned-Refuses env (Call.initialize admin name symbol decimals) i u = cc
unsigned-Refuses env c i u = search guards depth 12

-- Someone else than the stored administrator.
abbrev Foreign : Address → Store → Type 0
Foreign caller s = (stored : Address) → s.admin ≡ some stored → (caller == stored) ≡ false

require_admin-Refuses : (caller : Address) → Refuses (Foreign caller) (require_admin caller)
require_admin-Refuses caller = record {
  refused = λ s foreign.
      after_ok_or _ s.admin _ _ s λ stored found. rw (foreign stored found, fail_if) tt;
}

impostor-Refuses :
    (env : Env) (c : Call) → is_administrative c ≡ true → Refuses (Foreign (signer c)) (apply env c)
unfolding Supply.mint Supply.admin_burn_from Supply.clawback Admin.freeze Admin.unfreeze
    Admin.set_admin Admin.pause Admin.unpause Admin.set_allowlist_mode Admin.add_to_allowlist
    Admin.remove_from_allowlist
impostor-Refuses env (Call.initialize admin name symbol decimals) a = cc
impostor-Refuses env (Call.transfer from to amount) a = cc
impostor-Refuses env (Call.transfer_from spender from to amount) a = cc
impostor-Refuses env (Call.approve owner spender amount expiration) a = cc
impostor-Refuses env (Call.burn from amount) a = cc
impostor-Refuses env (Call.burn_from spender from amount) a = cc
impostor-Refuses env c a = search (guards, require_admin-Refuses) depth 12

-- The caller has authorized the invocation, and is the stored administrator if the call is
-- administrative.
abbrev pub Signed : Env → Call → Store → Type 0
Signed env c s =
    (env.authorized (signer c) ≡ true) × (is_administrative c ≡ true → s.admin ≡ some (signer c))

-- What a call that succeeds has needed of its caller.
abbrev pub Authorized : Env → Call → Store → Type 0
Authorized env c s = elim (is_signed c) [ true ↦ Signed env c s | false ↦ s.admin ≡ none ]

admin_cases : (caller : Address) (s : Store) → (s.admin ≡ some caller) ⊎ Foreign caller s
admin_cases caller s = go s.admin refl
  where
    go : (o : Option Address) → s.admin ≡ o → (s.admin ≡ some caller) ⊎ Foreign caller s
    go none e = inr (λ stored found. cc)
    go (some a) e = elim (Bool-cases (caller == a)) [
      | inl same ↦ inl (ground arith)
      | inr other ↦ inr (λ stored found. ground arith)
    ]

-- A fact that does not mention the storage holds after any invocation.
Post-given : {S E A : Type 0} (Q : Type 0) (r : Result E (A × S)) → Q → Post (λ _. Q) r
Post-given Q r q = Post-map _ (λ _. Q) r (λ s u. q) (Post-trivial r)

apply-Signed :
    (env : Env) (c : Call) (s : Store)
    → is_signed c ≡ true
    → Post (λ _. Signed env c s) (apply env c s)
apply-Signed env c s i = elim (Bool-cases (env.authorized (signer c))) [
  | inr unsigned ↦ Post-absurd _ _ ((unsigned-Refuses env c i unsigned).refused s tt)
  | inl agreed ↦ elim (Bool-cases (is_administrative c)) [
    | inr ordinary ↦ Post-given (Signed env c s) _ (agreed, λ a. cc)
    | inl administrative ↦ elim (admin_cases (signer c) s) [
      | inl stored ↦ Post-given (Signed env c s) _ (agreed, λ a. stored)
      | inr foreign ↦ Post-absurd _ _ ((impostor-Refuses env c administrative).refused s foreign)
    ]
  ]
]

initialize-once :
    (env : Env) (admin : Address) (name symbol : String) (decimals : ℕ) (s : Store)
    → Post (λ _. s.admin ≡ none) (Supply.initialize admin name symbol decimals s)
unfolding Supply.initialize
initialize-once env admin name symbol decimals s =
    after_fail_if _ (is_initialized s) _ _ s λ first. ground arith

-- A call succeeds only if the address that it names as its caller has authorized the invocation,
-- and, for an administrative call, only if that address is the stored administrator; `initialize`
-- succeeds only while there is no administrator.
pub apply-Authorized :
    (env : Env) (c : Call) (s : Store) → Post (λ _. Authorized env c s) (apply env c s)
apply-Authorized env (Call.initialize admin name symbol decimals) s =
    initialize-once env admin name symbol decimals s
apply-Authorized env c s = apply-Signed env c s refl
