-- ===== src/Base/Returns.antt =====
-- `rmw_ret_t`, as far as the modelled code returns it.
pub data RmwRet : Type 0 where
  ret_ok ret_error ret_timeout ret_unsupported ret_invalid_argument : RmwRet
