-- ===== src/Service/ResultStatus.antt =====
-- extensions/muxio-rpc-service/src/result_status.rs.
use rust_muxio.Prelude.{ℕ, ◌≡◌, refl, Option, none, some, ◌==◌, if◌then◌else◌}

pub data RpcResultStatus : Type 0 where
  success fail system_error method_not_found : RpcResultStatus

-- `status.into()`
unfoldable pub status_to_u8 : RpcResultStatus → ℕ
status_to_u8 success = 0
status_to_u8 fail = 1
status_to_u8 system_error = 2
status_to_u8 method_not_found = 3

-- `RpcResultStatus::try_from(b).ok()`
unfoldable pub status_try_from : ℕ → Option RpcResultStatus
status_try_from b =
    if b == 0
    then some success
    else if b == 1
    then some fail
    else if b == 2
    then some system_error
    else if b == 3
    then some method_not_found
    else none

pub status_try_from-status_to_u8 : (s : RpcResultStatus) → status_try_from (status_to_u8 s) ≡ some s
unfolding status_try_from status_to_u8
status_try_from-status_to_u8 success = refl
status_try_from-status_to_u8 fail = refl
status_try_from-status_to_u8 system_error = refl
status_try_from-status_to_u8 method_not_found = refl
