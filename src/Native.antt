-- ===== src/Native.antt =====
-- skipzfp/_native.py: the result codes of the C library and the check that turns one into an
-- exception. A C function that fills its outputs returns an `Outcome`.
use Prim.Native.String.{String, ◌++◌ as ◌<>◌}
use skip_zfp.Prelude.{Result, ok, err, runtime_error}

-- the failures of `SzResult`, csrc/util.h
pub data Code : Type 0 where
  sz_err_null sz_err_stream sz_err_zfp sz_err_field sz_err_decompress sz_err_dims : Code
  sz_err_arg sz_err_size sz_err_compress sz_err_malloc : Code

-- `SZ_OK` with the values written through the output pointers, or a failure
pub data Outcome {ℓ} (A : Type ℓ) : Type ℓ where
  sz_ok : A → Outcome A
  sz_err : Code → Outcome A

-- `ERROR_NAMES`; the codes are the ones that the library returns, so the lookup does not miss
unfoldable pub error_name : Code → String
error_name sz_err_null = "SZ_ERR_NULL"
error_name sz_err_stream = "SZ_ERR_STREAM"
error_name sz_err_zfp = "SZ_ERR_ZFP"
error_name sz_err_field = "SZ_ERR_FIELD"
error_name sz_err_decompress = "SZ_ERR_DECOMPRESS"
error_name sz_err_dims = "SZ_ERR_DIMS"
error_name sz_err_arg = "SZ_ERR_ARG"
error_name sz_err_size = "SZ_ERR_SIZE"
error_name sz_err_compress = "SZ_ERR_COMPRESS"
error_name sz_err_malloc = "SZ_ERR_MALLOC"

-- `check(code, name)` after a call, and the call's outputs
abbrev pub check {ℓ} : {A : Type ℓ} → String → Outcome A → Result A
check name (sz_ok a) = ok a
check name (sz_err c) = err (runtime_error (name <> " failed: " <> error_name c))
