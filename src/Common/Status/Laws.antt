-- ===== src/Common/Status/Laws.antt =====
-- The JSON of the states is read back, and nothing else is accepted.
use linstor_gateway.Base.{◌↔◌, ◌≡◌, refl, arith}
use linstor_gateway.Base.Outcome.{ok}
use linstor_gateway.Base.Text.{codes, eq_iff}
use linstor_gateway.Common.Status.{
  Json, string, other, ResourceState, unknown, resource_state_ok, resource_state_degraded,
  resource_state_bad, marshal_resource_state, unmarshal_resource_state, ServiceState,
  service_state_stopped, service_state_started, marshal_service_state, unmarshal_service_state,
}

resource_state_back :
    (l : ResourceState) → unmarshal_resource_state (marshal_resource_state l) ≡ ok l
unfolding unmarshal_resource_state marshal_resource_state
resource_state_back unknown = refl
resource_state_back resource_state_ok = refl
resource_state_back resource_state_degraded = refl
resource_state_back resource_state_bad = refl

service_state_back : (s : ServiceState) → unmarshal_service_state (marshal_service_state s) ≡ ok s
unfolding unmarshal_service_state marshal_service_state
service_state_back service_state_started = refl
service_state_back service_state_stopped = refl

resource_state_only :
    (j : Json) (l : ResourceState)
    → unmarshal_resource_state j ≡ ok l
    → j ≡ marshal_resource_state l
unfolding marshal_resource_state unmarshal_resource_state
resource_state_only other l h = cc
resource_state_only (string raw) l h = ground (
  arith,
  eq_iff raw (codes "OK"),
  eq_iff raw (codes "Degraded"),
  eq_iff raw (codes "Bad"),
  eq_iff raw (codes "Unknown"),
)

service_state_only :
    (j : Json) (s : ServiceState) → unmarshal_service_state j ≡ ok s → j ≡ marshal_service_state s
unfolding marshal_service_state unmarshal_service_state
service_state_only other s h = cc
service_state_only (string raw) s h =
    ground (arith, eq_iff raw (codes "Started"), eq_iff raw (codes "Stopped"))

-- A JSON value is read as a resource state exactly if that state is written as it.
pub unmarshal_resource_state_iff :
    (j : Json) (l : ResourceState)
    → (unmarshal_resource_state j ≡ ok l) ↔ (j ≡ marshal_resource_state l)
unmarshal_resource_state_iff j l = (resource_state_only j l, λ e. rw e (resource_state_back l))

-- A JSON value is read as a service state exactly if that state is written as it.
pub unmarshal_service_state_iff :
    (j : Json) (s : ServiceState)
    → (unmarshal_service_state j ≡ ok s) ↔ (j ≡ marshal_service_state s)
unmarshal_service_state_iff j s = (service_state_only j s, λ e. rw e (service_state_back s))
