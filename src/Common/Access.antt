-- ===== src/Common/Access.antt =====
-- packages/common/src/access.rs.
use moistello_contracts.Prelude.{◌==◌, if◌then◌else◌}
use moistello_contracts.Soroban.Result.{Result, ok, err}
use moistello_contracts.Soroban.Contract.{Address, Env}

pub data AccessError : Type 0 where
  not_initialized unauthorized : AccessError

unfoldable pub require_self_or_admin : Env → Address → Address → Result AccessError (Unit {0})
require_self_or_admin env addr stored_admin =
    if env.current_contract == addr
    then ok tt
    else if addr == stored_admin
    then ok tt
    else err unauthorized
