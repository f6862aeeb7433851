-- ===== src/Tests/Health.antt =====
-- The health check on a machine that lacks the kernel module for NVMe-oF.
use linstor_gateway.Base.{◌≡◌, ◌↔◌, ◌<◌, ◌≤◌, refl, none, some, [], ◌∷◌, inr, if◌then◌else◌}
use linstor_gateway.Base.Text.{codes, eq, split}
use linstor_gateway.Healthcheck.{
  Host, check, check_started_and_enabled, check_not_started, check_kernel_module_loaded,
  unit_started_and_enabled, after_connection, unit_active, lsmod, module_loaded, contains,
  contains_all, check_opened, check_allowed, inverted, expected_files,
}
use linstor_gateway.Healthcheck.Format.{Style}
use linstor_gateway.Healthcheck.Categories.{
  categories, messages, run_categories, check_requirements,
}
use linstor_gateway.Healthcheck.Laws.{
  AllCategoriesPass, failed_in, check_requirements_iff, check_requirements_count,
}
use linstor_gateway.Healthcheck.Units.{IsActive, check-IsActive}
use linstor_gateway.Healthcheck.Modules.{SomeBegins, check-SomeBegins}

abbrev host : Host
host = record {
  default_client = λ controllers. none;
  get_version = λ controllers. none;
  open_satellite_config = none;
  decode_satellite_config = inr expected_files;
  connect_systemd = none;
  list_units = λ name.
      inr
        ((if eq name (codes "nfs-server.service") then codes "inactive" else codes "active") ∷ []);
  stat = λ name. none;
  look_path = λ name. none;
  open_modules = none;
  scan_modules = (codes "drbd 614400 6" ∷ codes "nvme 49152 4" ∷ [], none);
}

abbrev style : Style
style = record {
  bold = λ text. text;
  red_mark = codes "x";
  error_text = λ e. [];
  config_file_used = [];
}

one_issue : (check_requirements style host []).1 ≡ some 1
unfolding check_requirements run_categories categories messages check unit_started_and_enabled
    after_connection unit_active lsmod module_loaded contains contains_all check_opened
    check_allowed inverted eq split
one_issue = refl

check_requirements_iff_example :
    ((check_requirements style host []).1 ≡ none) ↔ AllCategoriesPass host (categories [])
check_requirements_iff_example = check_requirements_iff host style []

check_requirements_count_example : (0 < 1) × (1 ≤ 6) × (1 ≤ failed_in host (categories []))
check_requirements_count_example = check_requirements_count host style [] 1 one_issue

check-IsActive_example :
    ((check host (check_started_and_enabled (codes "nfs-server.service") (codes "nfs")) ≡ none)
      ↔ IsActive host (codes "nfs-server.service"))
    × ((check host (check_not_started (codes "nfs-server.service")) ≡ none)
        ↔ (¬ IsActive host (codes "nfs-server.service")))
check-IsActive_example = check-IsActive host (codes "nfs-server.service") (codes "nfs")

check-SomeBegins_example :
    (check host (check_kernel_module_loaded (codes "nvmet") (codes "nvmetcli")) ≡ none) ↔ (
      (host.open_modules ≡ none)
      × (host.scan_modules.1 ≡ none)
      × SomeBegins (codes "nvmet") host.scan_modules.0)
check-SomeBegins_example = check-SomeBegins host (codes "nvmet") (codes "nvmetcli") refl
