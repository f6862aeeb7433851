-- ===== src/Healthcheck/Categories.antt =====
-- pkg/healthcheck/healthcheck.go: the categories of checks.
use linstor_gateway.Base.{ℕ, zero, suc, String, true, Option, none, some, List, [], ◌∷◌}
use linstor_gateway.Base.Text.{Text, codes}
use linstor_gateway.Healthcheck.{
  Host, CheckError, Checker, check, check_linstor, check_file_whitelist, check_in_path,
  check_started_and_enabled, check_reactor_auto_reload, check_file_exists,
  check_kernel_module_loaded, check_not_started,
}
use linstor_gateway.Healthcheck.Format.{Line, Style, format}

abbrev pub Category : Type 0
Category = String × List Checker

-- The categories of `CheckRequirements`, with their checks.
unfoldable pub categories : List Text → List Category
categories controllers =
    ("LINSTOR", check_linstor controllers ∷ check_file_whitelist ∷ [])
    ∷ (
      "drbd-reactor",
      check_in_path (codes "drbd-reactor") (codes "drbd-reactor")
          ∷ check_started_and_enabled (codes "drbd-reactor.service") (codes "drbd-reactor")
          ∷ check_reactor_auto_reload
          ∷ [],
    )
    ∷ (
      "Resource Agents",
      check_file_exists (codes "/usr/lib/ocf/resource.d/heartbeat") (codes "resource-agents") true
          ∷ [],
    )
    ∷ ("iSCSI", check_in_path (codes "targetcli") (codes "targetcli") ∷ [])
    ∷ (
      "NVMe-oF",
      check_in_path (codes "nvmetcli") (codes "nvmetcli")
          ∷ check_kernel_module_loaded (codes "nvmet") (codes "nvmetcli")
          ∷ [],
    )
    ∷ ("NFS", check_not_started (codes "nfs-server.service") ∷ [])
    ∷ []

-- What `category` prints: that the checks passed, or the messages, each of some lines.
pub data Shown : Type 0 where
  passed : String → Shown
  warned : String → List (List Line) → Shown

abbrev shown : String → List (List Line) → Shown
shown name [] = passed name
shown name (m ∷ msgs) = warned name (m ∷ msgs)

-- whether `len(msgs) > 0`, and `category` returns an error
abbrev pub count_failed : List (List Line) → ℕ → ℕ
count_failed [] n = n
count_failed (m ∷ msgs) n = suc n

-- `if errs > 0 { ... }`
abbrev pub found_issues : ℕ → Option ℕ
found_issues zero = none
found_issues (suc n) = some (suc n)

module _ (style : Style) (host : Host) where
  abbrev pub add_message : Checker → Option CheckError → List (List Line) → List (List Line)
  add_message c none msgs = msgs
  add_message c (some e) msgs = format style host c e ∷ msgs

  -- The loop of `category`.
  unfoldable pub messages : List Checker → List (List Line)
  messages [] = []
  messages (c ∷ checks) = add_message c (check host c) (messages checks)

  unfoldable pub category : Category → Shown
  unfolding messages
  category (name, checks) = shown name (messages checks)

  -- `errs` after the categories
  unfoldable pub run_categories : List Category → List Shown × ℕ
  unfolding category messages
  run_categories [] = ([], 0)
  run_categories ((name, checks) ∷ rest) =
      let (shown_rest, errs) = run_categories rest in
      (category (name, checks) ∷ shown_rest, count_failed (messages checks) errs)

  -- `CheckRequirements`: what it prints, and nil or the error with the number of issues
  unfoldable pub check_requirements : List Text → List Shown × Option ℕ
  unfolding run_categories categories
  check_requirements controllers =
      let (shown, errs) = run_categories (categories controllers) in (shown, found_issues errs)
