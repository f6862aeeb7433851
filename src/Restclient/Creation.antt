-- ===== src/Restclient/Creation.antt =====
-- A target that is created through the client.
pub mod Calls
use linstor_gateway.Base.{
  ℕ, String, ◌≡◌, refl, ◌∙◌, true, Option, none, some, List, [], ◌∷◌, ◌⊎◌, inl, inr,
}
use linstor_gateway.Base.Lists.{all}
use linstor_gateway.Base.Outcome.{Error, Result, ok, err, panic}
use linstor_gateway.Base.Text.{Text, codes}
use linstor_gateway.Linstor.{Call}
use linstor_gateway.Rest.{
  Reply, Handler, error_body, config_body, start_writing, must_error, respond, finish, refuse,
  on_result, with_location, bad_request,
}
use linstor_gateway.Restclient.{
  RestError, ClientError, rest_error, failed, Request, HttpRequest, HttpResponse, RestClient, Wire,
}
use linstor_gateway.Restclient.Requests.{
  json_type, into_nil, read_response, answered, do_request, sent, new_request, do_post,
}
use linstor_gateway.Restclient.Served.{IsConnection}
use linstor_gateway.Rest.Routes.Paths.{IsCleanPath}
use linstor_gateway.Restclient.EndToEnd.{KeepsPaths, is_path_byte}

-- The error of the client tells whether the operation succeeded: none, the error of the server, or that
-- of the connection where the server panics.
abbrev pub TellsCreated : {C : Type 0} → Result C → Option ClientError → Type 0
TellsCreated (ok cfg) e = e ≡ none
TellsCreated (err _) e = (told : RestError) × (e ≡ some (rest_error told))
TellsCreated panic e = (lost : Error) × (e ≡ some (failed lost))

abbrev pub ReportsCreated : {W C A : Type 0} → Request W A → Call W C → Type 0
ReportsCreated {W = W} call operation =
    (w : W) → TellsCreated (operation w).0 (call w).0.1 × ((call w).1 ≡ (operation w).1)

module _ {C : Type 0} (wire : Wire C) (receive : Reply C → Error ⊎ HttpResponse) {W : Type 0}
    (c : RestClient W) where
  -- What the handlers do that create a target.
  abbrev pub creating : String → (C → Text) → Result C → Handler W C
  creating problem location r =
      on_result r (refuse bad_request problem)
        (λ cfg. finish (respond 201 (config_body cfg) (with_location (location cfg) start_writing)))

  answered-TellsCreated :
      (problem : String) (location : C → Text) (r : Result C) (w : W)
      → IsConnection wire receive
      → TellsCreated r
          (answered wire (into_nil wire {T = C}) none (receive (creating problem location r w).0)).1
  unfolding on_result refuse respond must_error answered read_response
  answered-TellsCreated problem location (ok cfg) w good =
      let (text, same, json) = good.delivered 201 (some (location cfg)) (config_body cfg) refl in
      rw same (rw json refl)
  answered-TellsCreated problem location (err e) w good =
      let (text, same, json) = good.delivered 400 none (error_body 400 problem) refl in
      let (told, decoded) = good.explained 400 problem text refl same in
      rw same (told, rw decoded refl)
  answered-TellsCreated problem location panic w good =
      let (lost, same) = good.aborted in rw same (lost, refl)

  creating_state :
      (problem : String) (location : C → Text) (r : Result C) (w : W)
      → (creating problem location r w).1 ≡ w
  unfolding on_result refuse
  creating_state problem location (ok cfg) w = refl
  creating_state problem location (err e) w = refl
  creating_state problem location panic w = refl

  pub do_post-ReportsCreated :
      (problem : String) (location : C → Text) (path content : Text) (operation : Call W C)
      (url_path : Text → Text)
      → IsConnection wire receive
      → KeepsPaths wire c url_path
      → all is_path_byte path ≡ true
      → IsCleanPath (b'/' ∷ path)
      → ((req : HttpRequest) (w : W)
          → req.method ≡ codes "POST"
          → url_path req.url ≡ b'/' ∷ path
          → req.body ≡ some content
          → c.http_client req w ≡ (
            receive (creating problem location (operation w).0 (operation w).1).0,
            (creating problem location (operation w).0 (operation w).1).1,
          ))
      → ReportsCreated
          (do_post wire c (b'/' ∷ path) (some (inr content)) (into_nil wire {T = C}) none)
          operation
  unfolding do_post sent do_request new_request
  do_post-ReportsCreated problem location path content operation url_path good keeps plain clean
        runs w =
      let (rel, parsed, checked, kept) = keeps (codes "POST") path (inr (inl refl)) plain clean in
      let req : HttpRequest = record {
        method = codes "POST";
        url = wire.resolve_reference c.base_url rel;
        content_type = some json_type;
        accept = json_type;
        body = some content;
      } in
      rw (parsed, checked, runs req w refl kept refl)
        (
          answered-TellsCreated problem location (operation w).0 (operation w).1 good,
          creating_state problem location (operation w).0 (operation w).1,
        )
