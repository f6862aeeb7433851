-- ===== src/Common/Status.antt =====
-- pkg/common/resource.go: the states that the REST API reports, with their JSON.
pub mod Laws
use linstor_gateway.Base.{
  ℕ, Bool, true, false, not, ◌||◌, Option, none, some, List, [], ◌∷◌, if◌then◌else◌, ltb,
}
use linstor_gateway.Base.Int.{ℤ}
use linstor_gateway.Base.Outcome.{Result, ok, err, fail}
use linstor_gateway.Base.Text.{Text, codes, eq}
use linstor_gateway.Linstor.{ResourceWithVolumes}

-- A JSON value, as far as the program tells one: a string or anything else.
pub data Json : Type 0 where
  string : Text → Json
  other : Json

pub data ResourceState : Type 0 where
  unknown : ResourceState
  resource_state_ok : ResourceState
  resource_state_degraded : ResourceState
  resource_state_bad : ResourceState

-- The value of the constant, by which states are compared.
abbrev pub rank : ResourceState → ℕ
rank unknown = 0
rank resource_state_ok = 1
rank resource_state_degraded = 2
rank resource_state_bad = 3

unfoldable pub resource_state_string : ResourceState → Text
resource_state_string resource_state_ok = codes "OK"
resource_state_string resource_state_degraded = codes "Degraded"
resource_state_string resource_state_bad = codes "Bad"
resource_state_string unknown = codes "Unknown"

unfoldable pub marshal_resource_state : ResourceState → Json
unfolding resource_state_string
marshal_resource_state l = string (resource_state_string l)

unfoldable pub unmarshal_resource_state : Json → Result ResourceState
unfolding eq
unmarshal_resource_state other = fail "json: cannot unmarshal into string"
unmarshal_resource_state (string raw) =
    if eq raw (codes "OK")
    then ok resource_state_ok
    else if eq raw (codes "Degraded")
    then ok resource_state_degraded
    else if eq raw (codes "Bad")
    then ok resource_state_bad
    else if eq raw (codes "Unknown")
    then ok unknown
    else fail "unknown resource state: %s"

pub data ServiceState : Type 0 where
  service_state_stopped : ServiceState
  service_state_started : ServiceState

unfoldable pub service_state_string : ServiceState → Text
service_state_string service_state_started = codes "Started"
service_state_string service_state_stopped = codes "Stopped"

unfoldable pub marshal_service_state : ServiceState → Json
unfolding service_state_string
marshal_service_state s = string (service_state_string s)

unfoldable pub unmarshal_service_state : Json → Result ServiceState
unfolding eq
unmarshal_service_state other = fail "json: cannot unmarshal into string"
unmarshal_service_state (string raw) =
    if eq raw (codes "Started")
    then ok service_state_started
    else if eq raw (codes "Stopped")
    then ok service_state_stopped
    else fail "unknown service state: %s"

pub record VolumeState : Type 0 where
  pub number : ℤ
  pub state : ResourceState

pub record ResourceStatus : Type 0 where
  pub state : ResourceState
  pub service : ServiceState
  pub primary : Text
  pub nodes : List Text
  pub volumes : List VolumeState

-- `resource.State.InUse != nil && *resource.State.InUse`
abbrev pub is_in_use : ResourceWithVolumes → Bool
is_in_use r = elim r.in_use [ none ↦ false | some b ↦ b ]

unfoldable pub any_resources_in_use : List ResourceWithVolumes → Bool
any_resources_in_use [] = false
any_resources_in_use (r ∷ rs) = if is_in_use r then true else any_resources_in_use rs

unfoldable pub no_resources_in_use : List ResourceWithVolumes → Bool
unfolding any_resources_in_use
no_resources_in_use rs = not (any_resources_in_use rs)

-- `ResourceStatus{}`
abbrev pub zero_status : ResourceStatus
zero_status = record {
  state = unknown;
  service = service_state_stopped;
  primary = [];
  nodes = [];
  volumes = [];
}
