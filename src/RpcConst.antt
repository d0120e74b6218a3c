-- ===== src/RpcConst.antt =====
-- `rpc_const` of lab/rpc/rpc.h. A status is an `int`, kept as its 32-bit pattern: -1 is 2 ^ 32 - 1.
use ds14_project.Base.{ℕ, ◌-◌, ◌^◌, Bool, leb}

abbrev pub bind : ℕ
bind = 1

abbrev pub timeout_failure : ℕ
timeout_failure = 2 ^ 32 - 1

abbrev pub unmarshal_args_failure : ℕ
unmarshal_args_failure = 2 ^ 32 - 2

abbrev pub unmarshal_reply_failure : ℕ
unmarshal_reply_failure = 2 ^ 32 - 3

abbrev pub atmostonce_failure : ℕ
atmostonce_failure = 2 ^ 32 - 4

abbrev pub oldsrv_failure : ℕ
oldsrv_failure = 2 ^ 32 - 5

abbrev pub bind_failure : ℕ
bind_failure = 2 ^ 32 - 6

-- `x < 0` of an `int`.
abbrev pub is_negative : ℕ → Bool
is_negative x = leb (2 ^ 31) x
