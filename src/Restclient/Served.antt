-- ===== src/Restclient/Served.antt =====
-- The client and the server together: what a call of the client tells of the operation that the
-- handler runs for it.
use linstor_gateway.Base.{
  ℕ, String, ◌≡◌, refl, Bool, true, ◌||◌, ◌==◌, Option, none, some, [], ◌∷◌, ◌⊎◌, inl, inr,
}
use linstor_gateway.Base.Outcome.{Error, Result, ok, err, panic}
use linstor_gateway.Base.Text.{Text}
use linstor_gateway.Linstor.{Call}
use linstor_gateway.Rest.{
  Body, error_body, Written, Reply, done, crashed, Handler, start_writing, must_error, respond,
  finish, refuse, on_result, given, not_found, internal_error,
}
use linstor_gateway.Restclient.{
  RestError, ClientError, not_found_error, rest_error, failed, Request, HttpRequest, HttpResponse,
  RestClient, Wire,
}
use linstor_gateway.Restclient.Requests.{
  Decode, read_response, answered, do_request, sent, new_request,
}

-- The statuses of the replies that the handlers write.
abbrev pub has_content : ℕ → Bool
has_content code = code == 200 || (code == 201 || (code == 400 || (code == 404 || code == 500)))

module _ {C : Type 0} where
  abbrev pub written : ℕ → Option Text → Body C → Written C
  written code location body = record {
    status = some code;
    location = location;
    bodies = body ∷ [];
  }

  -- What the HTTP connection and the JSON codec make of what a handler writes: a response with one
  -- body and one of these statuses has that status and a JSON value in its body, and the decoder reads an error where one was
  -- encoded; a handler that panics is no response.
  pub record IsConnection (wire : Wire C) (receive : Reply C → Error ⊎ HttpResponse) : Type 0 where
    pub aborted : (e : Error) × (receive crashed ≡ inl e)
    pub delivered :
        (code : ℕ) (location : Option Text) (body : Body C)
        → has_content code ≡ true
        → (text : Text) × (receive (done (written code location body))
            ≡ inr (record { status_code = code; body = text }))
          × (wire.is_json text ≡ true)
    pub explained :
        (code : ℕ) (format : String) (text : Text)
        → has_content code ≡ true
        → receive (done (written code none (error_body code format)))
          ≡ inr (record { status_code = code; body = text })
        → (e : RestError) × (wire.decode_error text ≡ some e)

-- The error of the client tells what the operation returned: none for a target, `NotFoundError` for
-- no target, the error of the server for an error.
abbrev pub Tells : {C : Type 0} → Result (Option C) → Option ClientError → Type 0
Tells (ok (some cfg)) e = e ≡ none
Tells (ok none) e = e ≡ some not_found_error
Tells (err _) e = (told : RestError) × (e ≡ some (rest_error told))
Tells panic e = (lost : Error) × (e ≡ some (failed lost))

-- The call tells what the operation returns, and leaves the state that the operation leaves.
abbrev pub Reports : {W C A : Type 0} → Request W A → Call W (Option C) → Type 0
Reports {W = W} call operation =
    (w : W) → Tells (operation w).0 (call w).0.1 × ((call w).1 ≡ (operation w).1)

module _ {C : Type 0} (wire : Wire C) (receive : Reply C → Error ⊎ HttpResponse) {W : Type 0}
    (c : RestClient W) where
  -- The request can be made, and the server runs the handler for it.
  abbrev pub Reaches : Text → Text → Handler W C → Type 0
  Reaches method path handler =
      (req : HttpRequest) × (new_request wire c method path none ≡ inr req)
      × ((w : W) → c.http_client req w ≡ (receive (handler w).0, (handler w).1))

  -- What the handlers do that run an operation on one target.
  abbrev pub answering :
      String → String → (C → Body C) → Option Text → Result (Option C) → Handler W C
  answering problem missing body location r = on_result r (refuse internal_error problem) (λ found.
      given found (refuse not_found missing)
        (λ cfg. finish (respond 200 (body cfg) (record start_writing { location = location }))))

  answered-Tells :
      {A : Type 0} (decode : Decode A) (before : A) (problem missing : String) (body : C → Body C)
      (location : Option Text) (r : Result (Option C)) (w : W)
      → IsConnection wire receive
      → ((text : Text) → wire.is_json text ≡ true → (decode text).1 ≡ none)
      → Tells r
          (answered wire decode before (receive (answering problem missing body location r w).0)).1
  unfolding on_result given refuse respond must_error answered read_response
  answered-Tells decode before problem missing body location (ok (some cfg)) w good reads =
      let (text, same, json) = good.delivered 200 location (body cfg) refl in
      rw same (reads text json)
  answered-Tells decode before problem missing body location (ok none) w good reads =
      let (text, same, json) = good.delivered 404 none (error_body 404 missing) refl in rw same refl
  answered-Tells decode before problem missing body location (err e) w good reads =
      let (text, same, json) = good.delivered 500 none (error_body 500 problem) refl in
      let (told, decoded) = good.explained 500 problem text refl same in
      rw same (told, rw decoded refl)
  answered-Tells decode before problem missing body location panic w good reads =
      let (lost, same) = good.aborted in rw same (lost, refl)

  answering_state :
      (problem missing : String) (body : C → Body C) (location : Option Text)
      (r : Result (Option C)) (w : W)
      → (answering problem missing body location r w).1 ≡ w
  unfolding on_result given refuse
  answering_state problem missing body location (ok (some cfg)) w = refl
  answering_state problem missing body location (ok none) w = refl
  answering_state problem missing body location (err e) w = refl
  answering_state problem missing body location panic w = refl

  pub sent-Reports :
      {A : Type 0} (decode : Decode A) (before : A) (problem missing : String) (body : C → Body C)
      (location : Option Text) (method path : Text) (operation : Call W (Option C))
      (handler : Handler W C)
      → IsConnection wire receive
      → ((text : Text) → wire.is_json text ≡ true → (decode text).1 ≡ none)
      → Reaches method path handler
      → ((w : W)
          → handler w ≡ answering problem missing body location (operation w).0 (operation w).1)
      → Reports (sent wire c decode before (new_request wire c method path none)) operation
  unfolding sent do_request
  sent-Reports decode before problem missing body location method path operation handler good reads
        (req, made, runs) shape w =
      rw (made, runs w, shape w)
        (
          answered-Tells decode before problem missing body location (operation w).0 (operation w).1
              good reads,
          answering_state problem missing body location (operation w).0 (operation w).1,
        )
