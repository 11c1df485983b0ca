-- ===== src/Ctfe/Backend.antt =====
-- trillian/ctfe: what the backend answers, and the statuses of HTTP.
use certificate_transparency.Prelude.{ℕ, List, Option, none, some}
use certificate_transparency.Prelude.Int.{ℤ}
use certificate_transparency.Prelude.Outcome.{Outcome, ok, err, panic, diverge}

-- A handler ends with an answer, or with the status of an error.
abbrev pub Handled {ℓ} : Type ℓ → Type ℓ
Handled A = Outcome ℕ A

-- Codes of gRPC; `other_code` is one that `toHTTPStatus` does not name.
pub data Code : Type 0 where
  code_ok canceled deadline_exceeded invalid_argument out_of_range already_exists not_found : Code
  permission_denied resource_exhausted unauthenticated failed_precondition aborted : Code
  unimplemented unavailable other_code : Code

-- An error of a call of the backend: what the ErrorMapper of the instance makes of it, if there is
-- one and it knows the error, and the code, if it is an error of gRPC.
pub record RpcError : Type 0 where
  pub mapped : Option ℕ
  pub code : Option Code

abbrev pub Rpc : Type 0 → Type 0
Rpc A = Outcome RpcError A

-- `toHTTPStatus`.
unfoldable pub status_of : Code → ℕ
status_of code_ok = 200
status_of canceled = 408
status_of deadline_exceeded = 408
status_of invalid_argument = 400
status_of out_of_range = 400
status_of already_exists = 400
status_of not_found = 404
status_of permission_denied = 403
status_of resource_exhausted = 403
status_of unauthenticated = 401
status_of failed_precondition = 412
status_of aborted = 409
status_of unimplemented = 501
status_of unavailable = 503
status_of other_code = 500

unfoldable pub to_http_status : RpcError → ℕ
unfolding status_of
to_http_status e = elim e.mapped [
  | some status ↦ status
  | none ↦ elim e.code [ none ↦ 500 | some c ↦ status_of c ]
]

-- A call whose error becomes the handler's.
abbrev pub from_rpc {ℓ} : {A : Type ℓ} → Outcome RpcError A → Handled A
from_rpc (ok a) = ok a
from_rpc (err e) = err (to_http_status e)
from_rpc panic = panic
from_rpc diverge = diverge

-- An error of another kind that becomes the handler's, with a status.
abbrev pub or_status {ℓ} : {E : Type 0} {A : Type ℓ} → ℕ → Outcome E A → Handled A
or_status status (ok a) = ok a
or_status status (err e) = err status
or_status status panic = panic
or_status status diverge = diverge

-- A value that has to be there.
abbrev pub or_missing {ℓ} : {A : Type ℓ} → ℕ → Option A → Handled A
or_missing status none = err status
or_missing status (some a) = ok a

-- A leaf of the backend's tree.
pub record LogLeaf : Type 0 where
  pub leaf_index : ℤ
  pub leaf_value : List ℕ
  pub extra_data : List ℕ
