-- ===== src/Common/Errors.antt =====
-- include/kernel/base_def.h: the result codes `SK_EOK` … `SK_EINVAL` of `sk_err_t`.
pub data Err : Type 0 where
  eok error etimeout efull eempty enomem ebusy eio einval : Err
