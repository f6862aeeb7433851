-- ===== src/Healthcheck/Format.antt =====
-- The methods `format`: the lines that are printed for a check that fails, each a format string with
-- the texts of its values.
use linstor_gateway.Base.{String, Bool, Option, none, some, List, [], ◌∷◌, ◌++◌, if◌then◌else◌}
use linstor_gateway.Base.Outcome.{Error}
use linstor_gateway.Base.Text.{Text, codes, is_empty}
use linstor_gateway.Base.FilePath.{join_path}
use linstor_gateway.Healthcheck.{
  Host, CheckError, not_found, not_loaded, Checker, check_linstor, check_file_whitelist,
  check_in_path, check_started_and_enabled, check_reactor_auto_reload, check_file_exists,
  check_kernel_module_loaded, check_not_started,
}

abbrev pub Line : Type 0
Line = String × List Text

-- Package color: `bold`, the red mark, the text of an error, and `viper.ConfigFileUsed()`.
pub record Style : Type 0 where
  pub bold : Text → Text
  pub red_mark : Text
  pub error_text : CheckError → Text
  pub config_file_used : Text

abbrev pub satellite_config_file : Text
satellite_config_file = codes "/etc/linstor/linstor_satellite.toml"

abbrev first_dir : List Text → (Text → Option Error) → Text
first_dir [] stat = []
first_dir (p ∷ paths) stat = elim (stat p) [ none ↦ p | some e ↦ first_dir paths stat ]

unfoldable pub guess_reactor_reload_dir : Host → Text
guess_reactor_reload_dir host =
    first_dir
      (codes "/usr/share/doc/drbd-reactor/examples/" ∷ codes "/usr/share/doc/drbd-reactor/" ∷ [])
      host.stat

-- `errors.Is(err, errNotFound)`
abbrev installed_or_running : CheckError → Text
installed_or_running not_found = codes "installed"
installed_or_running _ = codes "running"

module _ (style : Style) where
  abbrev reload_hint : Text → List Line
  reload_hint dir =
      let path = join_path (dir ∷ codes "drbd-reactor-reload.{path,service}" ∷ []) in
      ("    %s drbd-reactor is not configured to automatically reload\n", style.red_mark ∷ [])
      ∷ ("      Please execute:\n", [])
      ∷ ("        %s\n", style.bold (codes "cp " ++ (path ++ codes " /etc/systemd/system/")) ∷ [])
      ∷ ("        %s\n", style.bold (codes "systemctl enable --now drbd-reactor-reload.path") ∷ [])
      ∷ ("      Learn more at https://github.com/LINBIT/drbd-reactor/#automatic-reload\n", [])
      ∷ []

  abbrev not_loaded_hint : Text → Text → List Line
  not_loaded_hint name package_name =
      ("    %s Kernel module %s is not loaded\n", style.red_mark ∷ style.bold name ∷ [])
      ∷ (
        "      Execute %s or install package %s\n",
        style.bold (codes "modprobe " ++ name) ∷ style.bold package_name ∷ [],
      )
      ∷ []

  unfoldable pub format_kernel_module : Text → Text → CheckError → List Line
  format_kernel_module name package_name not_loaded = not_loaded_hint name package_name
  format_kernel_module name package_name e =
      (
        "    %s Could not check if kernel module %s is loaded\n",
        style.red_mark ∷ style.bold name ∷ [],
      )
      ∷ ("      %s\n", style.error_text e ∷ [])
      ∷ []

  unfoldable pub format_linstor : CheckError → List Line
  format_linstor e =
      ("    %s %s\n", style.red_mark ∷ codes "No connection to a LINSTOR controller" ∷ [])
      ∷ ("      %s\n", style.error_text e ∷ [])
      ∷ ("      Make sure that either\n", [])
      ∷ ("      • the %s command line option, or\n", style.bold (codes "--controllers") ∷ [])
      ∷ ("      • the %s environment variable, or\n", style.bold (codes "LS_CONTROLLERS") ∷ [])
      ∷ (
        "      • the %s key in your configuration file (%s)\n",
        style.bold (codes "linstor.controllers") ∷ style.bold style.config_file_used ∷ [],
      )
      ∷ (
        "      contain an URL to a LINSTOR controller, or that the LINSTOR controller is running on this machine.\n",
        [],
      )
      ∷ []

  unfoldable pub format_file_whitelist : CheckError → List Line
  format_file_whitelist e =
      (
        "    %s The LINSTOR satellite is not configured correctly on this node\n",
        style.red_mark ∷ [],
      )
      ∷ ("      %s\n", style.error_text e ∷ [])
      ∷ (
        "      Edit the LINSTOR satellite configuration file (%s) to include the following:\n\n",
        style.bold satellite_config_file ∷ [],
      )
      ∷ ("      [files]\n", [])
      ∷ (
        "        allowExtFiles = [\"/etc/systemd/system\", \"/etc/systemd/system/linstor-satellite.service.d\", \"/etc/drbd-reactor.d\"]\n\n",
        [],
      )
      ∷ (
        "      and execute %s.\n",
        style.bold (codes "systemctl restart linstor-satellite.service") ∷ [],
      )
      ∷ []

  unfoldable pub format_in_path : Text → Text → CheckError → List Line
  format_in_path binary package_name e =
      ("    %s The %s tool is not available\n", style.red_mark ∷ style.bold binary ∷ [])
      ∷ ("      %s\n", style.error_text e ∷ [])
      ∷ ("      Please install the %s package\n", style.bold package_name ∷ [])
      ∷ []

  unfoldable pub format_started_and_enabled : Text → Text → CheckError → List Line
  format_started_and_enabled service package_name e =
      (
        "    %s Service %s is not %s\n",
        style.red_mark ∷ style.bold service ∷ installed_or_running e ∷ [],
      )
      ∷ ("      Make sure that:\n", [])
      ∷ ("      • the %s package is installed\n", style.bold package_name ∷ [])
      ∷ ("      • the %s systemd unit is started and enabled\n", style.bold service ∷ [])
      ∷ []

  unfoldable pub format_auto_reload : Host → List Line
  unfolding guess_reactor_reload_dir
  format_auto_reload host =
      let dir = guess_reactor_reload_dir host in if is_empty dir then [] else reload_hint dir

  unfoldable pub format_file_exists : Text → Text → Bool → List Line
  format_file_exists filename package_name is_directory =
      (
        "    %s The %s %s does not exist\n",
        style.red_mark
            ∷ (if is_directory then codes "directory" else codes "file")
            ∷ style.bold filename
            ∷ [],
      )
      ∷ ("      Please install the %s package\n", style.bold package_name ∷ [])
      ∷ []

  unfoldable pub format_not_started : Text → List Line
  format_not_started service =
      (
        "    %s Service %s is started, but it is not supposed to be.\n",
        style.red_mark ∷ style.bold service ∷ [],
      )
      ∷ ("      This systemd service conflicts with LINSTOR Gateway.\n", [])
      ∷ (
        "      Execute %s to disable and stop the service.\n",
        style.bold (codes "systemctl disable --now " ++ service) ∷ [],
      )
      ∷ []

  unfoldable pub format : Host → Checker → CheckError → List Line
  unfolding format_linstor format_file_whitelist format_in_path format_started_and_enabled
      format_auto_reload format_file_exists format_kernel_module format_not_started
  format host (check_linstor controllers) e = format_linstor e
  format host check_file_whitelist e = format_file_whitelist e
  format host (check_in_path binary package_name) e = format_in_path binary package_name e
  format host (check_started_and_enabled service package_name) e =
      format_started_and_enabled service package_name e
  format host check_reactor_auto_reload e = format_auto_reload host
  format host (check_file_exists filename package_name is_directory) e =
      format_file_exists filename package_name is_directory
  format host (check_kernel_module_loaded name package_name) e =
      format_kernel_module name package_name e
  format host (check_not_started service) e = format_not_started service
