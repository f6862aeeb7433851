-- ===== src/Restclient/Requests.antt =====
-- client/client.go: a request to the server, made and sent, and the response read.
use linstor_gateway.Base.{
  Bool, ◌||◌, Option, none, some, List, ◌⊎◌, inl, inr, ltb, leb, ◌==◌, if◌then◌else◌,
}
use linstor_gateway.Base.Outcome.{Error}
use linstor_gateway.Base.Text.{Text, codes}
use linstor_gateway.Restclient.{
  RestError, ClientError, not_found_error, rest_error, undecodable, undecodable_error, failed,
  Returned, Request, HttpRequest, HttpResponse, RestClient, Wire,
}

abbrev pub json_type : Text
json_type = codes "application/json"

abbrev type_of_body : Option Text → Option Text
type_of_body none = none
type_of_body (some body) = some json_type

-- What a response leaves in the caller's variable, and the error of the decoder.
abbrev pub Decode : Type 0 → Type 0
Decode A = Text → Returned A

abbrev pub unless_good : Bool → Option ClientError
unless_good good = if good then none else some undecodable

abbrev or_undecodable : Option RestError → ClientError
or_undecodable none = undecodable_error
or_undecodable (some e) = rest_error e

infixl 5 ◌>>=◌ ◌>>◌
abbrev ◌>>=◌ : {A B : Type 0} → Error ⊎ A → (A → Error ⊎ B) → Error ⊎ B
inl e >>= f = inl e
inr a >>= f = f a

abbrev ◌>>◌ : {B : Type 0} → Option Error → Error ⊎ B → Error ⊎ B
some e >> next = inl e
none >> next = next

-- `if body != nil { ... Encode(body) ... }`
abbrev encoded : Option (Error ⊎ Text) → Error ⊎ Option Text
encoded none = inr none
encoded (some (inl e)) = inl e
encoded (some (inr text)) = inr (some text)

module _ {C : Type 0} (wire : Wire C) where
  -- `v == nil`
  abbrev pub discard : Decode (Unit {0})
  discard body = (tt, none)

  -- `v` is the address of an interface that holds a nil pointer.
  abbrev pub into_nil : {T : Type 0} → Decode (Option T)
  into_nil body = (none, unless_good (wire.is_json body))

  -- `v` is the address of an interface that holds the address of a slice.
  abbrev pub into_list : Decode (List C)
  into_list body = let (configs, good) = wire.decode_list body in (configs, unless_good good)

  -- The part of `do` that looks at the response; `before` is what the variable of the caller holds.
  unfoldable pub read_response : {A : Type 0} → Decode A → A → HttpResponse → Returned A
  read_response decode before resp =
      if ltb resp.status_code 200 || leb 400 resp.status_code
      then if resp.status_code == 404
        then (before, some not_found_error)
        else (before, some (or_undecodable (wire.decode_error resp.body)))
      else decode resp.body

  unfoldable pub answered : {A : Type 0} → Decode A → A → Error ⊎ HttpResponse → Returned A
  unfolding read_response
  answered decode before (inl e) = (before, some (failed e))
  answered decode before (inr resp) = read_response decode before resp

  module _ {W : Type 0} (c : RestClient W) where
    -- `newRequest`, with what the encoder makes of the body, if there is one
    unfoldable pub new_request : Text → Text → Option (Error ⊎ Text) → Error ⊎ HttpRequest
    new_request method path body = do
      rel ← wire.parse_url path
      content ← encoded body
      wire.check_request method (wire.resolve_reference c.base_url rel)
      inr (record {
        method = method;
        url = wire.resolve_reference c.base_url rel;
        content_type = type_of_body content;
        accept = json_type;
        body = content;
      })

    unfoldable pub do_request : {A : Type 0} → Decode A → A → HttpRequest → Request W A
    unfolding answered
    do_request decode before req w =
        let (answer, w') = c.http_client req w in (answered decode before answer, w')

    -- `if err != nil { return nil, err }` after `newRequest`, and `do`
    unfoldable pub sent : {A : Type 0} → Decode A → A → Error ⊎ HttpRequest → Request W A
    unfolding do_request
    sent decode before (inl e) w = ((before, some (failed e)), w)
    sent decode before (inr req) w = do_request decode before req w

    unfoldable pub do_get : {A : Type 0} → Text → Decode A → A → Request W A
    unfolding sent new_request
    do_get url decode before = sent decode before (new_request (codes "GET") url none)

    unfoldable pub do_post :
        {A : Type 0} → Text → Option (Error ⊎ Text) → Decode A → A → Request W A
    unfolding sent new_request
    do_post url body decode before = sent decode before (new_request (codes "POST") url body)

    unfoldable pub do_put : {A : Type 0} → Text → Option (Error ⊎ Text) → Decode A → A → Request W A
    unfolding sent new_request
    do_put url body decode before = sent decode before (new_request (codes "PUT") url body)

    unfoldable pub do_delete : Text → Request W (Unit {0})
    unfolding sent new_request
    do_delete url = sent discard tt (new_request (codes "DELETE") url none)
