-- ===== src/Base/Errors.antt =====
-- Go's `error` results: the sentinel errors of the stores and of the use cases, and the chain.

pub data Error : Type 0 where
  io_error not_exist is_exist : Error
  manifest_locked manifest_cas skip_manifest_update : Error
  already_locked lease_held lease_lost : Error
  invalid_status invalid_transition empty_message_id : Error
  usage_error archive_missing canceled : Error

pub data Result {ℓ} (A : Type ℓ) : Type ℓ where
  ok : A → Result A
  err : Error → Result A
