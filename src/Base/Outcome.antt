-- ===== src/Base/Outcome.antt =====
-- What a Go function that may fail returns. An error is told by its format string, without the
-- values that are printed into it, and keeps the error that it wraps. A run-time panic (an index
-- out of range, a nil dereference) is an outcome of its own.
use linstor_gateway.Base.{String, Bool}

-- The return codes of golinstor that the program names.
pub data FailCode : Type 0 where
  exists_node exists_rsc_dfn exists_rsc exists_vlm_dfn exists_vlm exists_net_if : FailCode
  exists_node_conn exists_rsc_conn exists_vlm_conn exists_stor_pool_dfn : FailCode
  exists_stor_pool exists_stlt_conn exists_crypt_passphrase exists_watch : FailCode
  exists_snapshot_dfn exists_snapshot exists_ext_name : FailCode
  exists_nvme_target_per_rsc_dfn exists_nvme_initiator_per_rsc_dfn lost_stor_pool : FailCode
  exists_rsc_grp exists_vlm_grp exists_openflex_target_per_rsc_dfn : FailCode
  exists_snapshot_shipping exists_exos_enclosure : FailCode

-- An error of the LINSTOR client: `client.NotFoundError`, a `client.ApiCallError`, which its method
-- `Is` tells, or any other.
pub data ApiError : Type 0 where
  not_found : ApiError
  api_call : (FailCode → Bool) → ApiError
  other : ApiError

pub data Error : Type 0 where
  -- a value of `errors.New` or `fmt.Errorf` with no `%w`
  message : String → Error
  -- `common.ValidationError`
  validation : String → Error
  -- `fmt.Errorf("...: %w", err)`
  wrap : String → Error → Error
  api : ApiError → Error

pub data Result {ℓ} (A : Type ℓ) : Type ℓ where
  ok : A → Result A
  err : Error → Result A
  panic : Result A

infixl 5 ◌>>=◌ ◌>>◌
abbrev pub ◌>>=◌ {ℓ κ} : {A : Type ℓ} {B : Type κ} → Result A → (A → Result B) → Result B
panic >>= next = panic
err e >>= next = err e
ok a >>= next = next a

abbrev pub ◌>>◌ {ℓ} : {B : Type ℓ} → Result (Unit {0}) → Result B → Result B
m >> k = m >>= λ _. k

-- `if err != nil { return fmt.Errorf("...: %w", err) }`
abbrev pub wrapping {ℓ} : {A : Type ℓ} → String → Result A → Result A
wrapping s (ok a) = ok a
wrapping s (err e) = err (wrap s e)
wrapping s panic = panic

abbrev pub fail {ℓ} : {A : Type ℓ} → String → Result A
fail s = err (message s)

-- The outcome is not a run-time panic.
abbrev pub NoPanic {ℓ} : {A : Type ℓ} → Result A → Type 0
NoPanic (ok a) = Unit
NoPanic (err e) = Unit
NoPanic panic = ⊥
