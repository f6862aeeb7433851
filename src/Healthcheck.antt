-- ===== src/Healthcheck.antt =====
-- pkg/healthcheck: the checks of the requirements on this machine. What they ask the machine for, is a
-- parameter: the record `Host`. An error of Go is nil or one of `CheckError`.
pub mod Format
pub mod Categories
pub mod Laws
pub mod Units
pub mod Modules
use linstor_gateway.Base.{
  ℕ, Bool, true, false, ◌||◌, ◌&&◌, not, Option, none, some, List, [], ◌∷◌, ◌⊎◌, inl, inr, map,
  if◌then◌else◌,
}
use linstor_gateway.Base.Outcome.{Error, message, wrap}
use linstor_gateway.Base.Text.{Text, codes, eq, split}

pub record Host : Type 0 where
  -- the errors of `linstorcontrol.Default` and of `GetVersion`, for a list of controllers
  pub default_client : List Text → Option Error
  pub get_version : List Text → Option Error
  -- `os.Open` of the configuration of the satellite, and the `allowExtFiles` that are decoded from it
  pub open_satellite_config : Option Error
  pub decode_satellite_config : Error ⊎ List Text
  -- the connection to systemd, and the `ActiveState` of the units of a name
  pub connect_systemd : Option Error
  pub list_units : Text → Error ⊎ List Text
  -- `os.Stat` and `exec.LookPath`
  pub stat : Text → Option Error
  pub look_path : Text → Option Error
  -- `os.Open("/proc/modules")`, and what the scanner reads: the lines, and its error
  pub open_modules : Option Error
  pub scan_modules : List Text × Option Error

pub data CheckError : Type 0 where
  -- `errNotFound`
  not_found : CheckError
  -- `errKernelModuleNotLoaded`
  not_loaded : CheckError
  because : Error → CheckError

-- The types that implement `checker`.
pub data Checker : Type 0 where
  check_linstor : (controllers : List Text) → Checker
  check_file_whitelist : Checker
  check_in_path : (binary package_name : Text) → Checker
  check_started_and_enabled : (service package_name : Text) → Checker
  check_reactor_auto_reload : Checker
  check_file_exists : (filename package_name : Text) → (is_directory : Bool) → Checker
  check_kernel_module_loaded : (kernel_module package_name : Text) → Checker
  check_not_started : (service : Text) → Checker

unfoldable pub contains : List Text → Text → Bool
contains [] needle = false
contains (h ∷ haystack) needle = eq h needle || contains haystack needle

unfoldable pub contains_all : List Text → List Text → Bool
unfolding contains
contains_all haystack [] = true
contains_all haystack (n ∷ needles) = contains haystack n && contains_all haystack needles

abbrev pub expected_files : List Text
expected_files =
    codes "/etc/systemd/system"
    ∷ codes "/etc/systemd/system/linstor-satellite.service.d"
    ∷ codes "/etc/drbd-reactor.d"
    ∷ []

-- `split[0]`, of a split that is never empty
abbrev pub head_of : List Text → Text
head_of [] = []
head_of (word ∷ words) = word

abbrev pub first_word : Text → Text
first_word line = head_of (split b' ' line)

-- `err != nil`, with the value of the error
abbrev pub failing : Option Error → Option CheckError
failing none = none
failing (some e) = some (because e)

abbrev or_else : Option CheckError → Option CheckError → Option CheckError
or_else none next = next
or_else (some e) next = some e

-- The part of `checkFileWhitelist.check` that follows the decoding.
unfoldable pub check_allowed : Error ⊎ List Text → Option CheckError
unfolding contains_all
check_allowed (inl e) = some (because (wrap "failed to decode satellite config: %w" e))
check_allowed (inr allowed) =
    if contains_all allowed expected_files
    then none
    else some (because (message "unexpected allowExtFiles value"))

unfoldable pub check_opened : Option Error → Error ⊎ List Text → Option CheckError
unfolding check_allowed
check_opened (some e) decoded = some (because (wrap "failed to open file: %w" e))
check_opened none decoded = check_allowed decoded

-- The part of `unitStartedAndEnabled` that follows the connection.
unfoldable pub unit_active : Error ⊎ List Text → Option CheckError
unit_active (inl e) = some (because e)
unit_active (inr []) = some not_found
unit_active (inr (state ∷ states)) =
    if eq state (codes "active") then none else some (because (message "service %s is not started"))

unfoldable pub after_connection : Option Error → Error ⊎ List Text → Option CheckError
unfolding unit_active
after_connection (some e) listed = some (because (wrap "failed to connect to systemd: %w" e))
after_connection none listed = unit_active listed

-- `lsmod`
unfoldable pub lsmod : Option Error → List Text × Option Error → Error ⊎ List Text
lsmod (some e) scanned = inl (wrap "failed to open /proc/modules: %w" e)
lsmod none (lines, some e) = inl (wrap "failed to read /proc/modules: %w" e)
lsmod none (lines, none) = inr (map first_word lines)

unfoldable pub module_loaded : Text → Error ⊎ List Text → Option CheckError
unfolding contains
module_loaded name (inl e) = some (because e)
module_loaded name (inr modules) = if contains modules name then none else some not_loaded

-- `checkNotStarted.check`, from the error of `unitStartedAndEnabled`
unfoldable pub inverted : Option CheckError → Option CheckError
inverted none = some (because (message "is started"))
inverted (some e) = none

module _ (host : Host) where
  unfoldable pub unit_started_and_enabled : Text → Option CheckError
  unfolding after_connection
  unit_started_and_enabled service = after_connection host.connect_systemd (host.list_units service)

  -- the methods `check`
  unfoldable pub check : Checker → Option CheckError
  unfolding unit_started_and_enabled check_opened lsmod module_loaded inverted
  check (check_linstor controllers) =
      or_else (failing (host.default_client controllers)) (failing (host.get_version controllers))
  check check_file_whitelist = check_opened host.open_satellite_config host.decode_satellite_config
  check (check_in_path binary package_name) = failing (host.look_path binary)
  check (check_started_and_enabled service package_name) = unit_started_and_enabled service
  check check_reactor_auto_reload = unit_started_and_enabled (codes "drbd-reactor-reload.path")
  check (check_file_exists filename package_name is_directory) = failing (host.stat filename)
  check (check_kernel_module_loaded name package_name) =
      module_loaded name (lsmod host.open_modules host.scan_modules)
  check (check_not_started service) = inverted (unit_started_and_enabled service)
