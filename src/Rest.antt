-- ===== src/Rest.antt =====
-- pkg/rest/server.go: what the handlers write, and how they call the operations. The handlers get the
-- variables of the route as texts, and what the JSON decoder makes of the body of the request.
pub mod Iscsi
pub mod Nvmeof
pub mod Nfs
pub mod Answers
pub mod Refusals
pub mod Adding
pub mod Reading
pub mod Deletion
pub mod Routes
use linstor_gateway.Base.{ℕ, String, Option, none, some, List, [], ◌∷◌, ◌++◌}
use linstor_gateway.Base.Outcome.{Result, ok, err, panic}
use linstor_gateway.Base.Text.{Text}
use linstor_gateway.Linstor.{Call}
use linstor_gateway.Common.Volume.{Volume}

abbrev pub bad_request : ℕ
bad_request = 400

abbrev pub not_found : ℕ
not_found = 404

abbrev pub internal_error : ℕ
internal_error = 500

-- What is encoded into the body of a response: an `Error`, by its code and its format string; a
-- configuration, or several; a volume, or null; the empty object; or the status of the API.
pub data Body (C : Type 0) : Type 0 where
  error_body : ℕ → String → Body C
  config_body : C → Body C
  list_body : List C → Body C
  volume_body : Option Volume → Body C
  empty_body : Body C
  status_body : Body C

-- The response as far as it is written.
pub record Written (C : Type 0) : Type 0 where
  pub status : Option ℕ
  pub location : Option Text
  pub bodies : List (Body C)

-- What comes of a request: a response, or a run-time panic.
pub data Reply (C : Type 0) : Type 0 where
  done : Written C → Reply C
  crashed : Reply C

abbrev pub Handler : Type 0 → Type 0 → Type 0
Handler W C = W → Reply C × W

abbrev first_status : Option ℕ → ℕ → Option ℕ
first_status none code = some code
first_status (some first) code = some first

module _ {C : Type 0} where
  abbrev pub start_writing : Written C
  start_writing = record { status = none; location = none; bodies = [] }

  -- `w.WriteHeader(code)`, of which the first call counts
  abbrev pub write_header : ℕ → Written C → Written C
  write_header code out = record out { status = first_status out.status code }

  abbrev pub write_body : Body C → Written C → Written C
  write_body body out = record out { bodies = out.bodies ++ body ∷ [] }

  -- `MustError`, and `Errorf`
  unfoldable pub must_error : ℕ → String → Written C → Written C
  must_error code format out = write_body (error_body code format) (write_header code out)

  -- `w.WriteHeader(code)` and `json.NewEncoder(w).Encode(...)`
  unfoldable pub respond : ℕ → Body C → Written C → Written C
  respond code body out = write_body body (write_header code out)

  abbrev pub with_location : Text → Written C → Written C
  with_location location out = record out { location = some location }

module _ {W C : Type 0} where
  abbrev pub finish : Written C → Handler W C
  finish out w = (done out, w)

  -- `MustError(...)` and `return` in a handler that has written nothing yet
  unfoldable pub refuse : ℕ → String → Handler W C
  unfolding must_error
  refuse code format = finish (must_error code format start_writing)

  -- `if err != nil { ... }` on the outcome of a function, and what follows.
  unfoldable pub on_result : {A : Type 0} → Result A → Handler W C → (A → Handler W C) → Handler W C
  on_result (ok a) bad good w = good a w
  on_result (err e) bad good w = bad w
  on_result panic bad good w = (crashed, w)

  -- The same for an operation.
  unfoldable pub calling : {A : Type 0} → Call W A → Handler W C → (A → Handler W C) → Handler W C
  unfolding on_result
  calling m bad good w = let (r, w') = m w in on_result r bad good w'

  -- `if x == nil { ... }`, and where a number or the body of the request cannot be read.
  unfoldable pub given : {A : Type 0} → Option A → Handler W C → (A → Handler W C) → Handler W C
  given none bad good = bad
  given (some a) bad good = good a

  -- `APIStatus`
  unfoldable pub api_status : Handler W C
  unfolding respond
  api_status = finish (respond 200 status_body start_writing)
