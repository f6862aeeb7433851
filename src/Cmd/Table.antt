-- ===== src/Cmd/Table.antt =====
-- cmd/colors.go, and the loops of the `list` commands that fill a table.
use linstor_gateway.Base.{ℕ, suc, Bool, true, false, List, [], ◌∷◌, ltb}
use linstor_gateway.Base.Lists.{drop}
use linstor_gateway.Base.Text.{Text}
use linstor_gateway.Base.Decimal.{itoa}
use linstor_gateway.Common.Status.{
  ResourceState, ServiceState, VolumeState, ResourceStatus, resource_state_ok,
  resource_state_degraded, resource_state_bad, unknown, service_state_started,
  service_state_stopped, resource_state_string, service_state_string,
}

-- `tablewriter.Colors`: none, and the three of the package
pub data Colors : Type 0 where
  no_colors table_color_ok table_color_degraded table_color_bad : Colors

unfoldable pub service_state_color : ServiceState → Colors
service_state_color service_state_started = table_color_ok
service_state_color service_state_stopped = table_color_bad

unfoldable pub resource_state_color : ResourceState → Colors
resource_state_color resource_state_ok = table_color_ok
resource_state_color resource_state_degraded = table_color_degraded
resource_state_color resource_state_bad = table_color_bad
resource_state_color unknown = table_color_degraded

-- `table.Rich(cells, colors)`
pub record Row : Type 0 where
  pub cells : List Text
  pub colors : List Colors

abbrev pub is_ok : ResourceState → Bool
is_ok resource_state_ok = true
is_ok _ = false

-- A row for a volume: the name, the service IPs, the service state, what tells the volume, and its state.
unfoldable pub row : Text → Text → ServiceState → Text → ResourceState → Row
unfolding service_state_color resource_state_color
row name ips service told state = record {
  cells = name ∷ ips ∷ service_state_string service ∷ told ∷ resource_state_string state ∷ [];
  colors =
      no_colors
      ∷ no_colors
      ∷ service_state_color service
      ∷ no_colors
      ∷ resource_state_color state
      ∷ [];
}

-- The table and `degradedResources`.
abbrev pub Table : Type 0
Table = List Row × ℕ

unfoldable pub count_state : ResourceState → ℕ → ℕ
count_state resource_state_ok n = n
count_state _ n = suc n

unfoldable pub add_row : Row → ResourceState → Table → Table
unfolding count_state
add_row r state (rows, degraded) = (r ∷ rows, count_state state degraded)

-- The loop over `cfg.Status.Volumes` of an iSCSI or NVMe-oF target, which leaves out the first volume;
-- the table of the targets behind it comes last.
unfoldable pub status_rows : Text → Text → ServiceState → List VolumeState → Table → Table
unfolding add_row row
status_rows name ips service [] table = table
status_rows name ips service (vol ∷ vols) table =
    add_row (row name ips service (itoa vol.number) vol.state) vol.state
      (status_rows name ips service vols table)

unfoldable pub target_rows : Text → Text → ResourceStatus → Table → Table
unfolding status_rows
target_rows name ips status table =
    status_rows name ips status.service (drop 1 status.volumes) table

-- `if degradedResources > 0`
abbrev pub is_warned : Table → Bool
is_warned (rows, degraded) = ltb 0 degraded
