-- ===== src/Healthcheck/Laws.antt =====
-- When the health check passes, and what it counts.
use linstor_gateway.Base.{
  ℕ, zero, suc, ◌+◌, ◌≤◌, ◌<◌, ◌≡◌, ◌↔◌, Option, none, some, List, [], ◌∷◌, arith,
}
use linstor_gateway.Base.Lists.{length}
use linstor_gateway.Base.Text.{Text}
use linstor_gateway.Healthcheck.{Host, CheckError, Checker, check}
use linstor_gateway.Healthcheck.Format.{Line, Style}
use linstor_gateway.Healthcheck.Categories.{
  Category, categories, add_message, messages, count_failed, run_categories, found_issues,
  check_requirements,
}

count_failed_iff :
    (msgs : List (List Line)) (n : ℕ) → (count_failed msgs n ≡ 0) ↔ ((msgs ≡ []) × (n ≡ 0))
count_failed_iff [] n = ground arith
count_failed_iff (m ∷ msgs) n = ground arith

found_issues_iff : (n : ℕ) → (found_issues n ≡ none) ↔ (n ≡ 0)
found_issues_iff zero = ground arith
found_issues_iff (suc n) = ground arith

module _ (host : Host) where
  -- Every check passes.
  abbrev pub AllPass : List Checker → Type 0
  AllPass [] = Unit
  AllPass (c ∷ checks) = (check host c ≡ none) × AllPass checks

  abbrev pub AllCategoriesPass : List Category → Type 0
  AllCategoriesPass [] = Unit
  AllCategoriesPass ((name, checks) ∷ rest) = AllPass checks × AllCategoriesPass rest

  -- How many checks fail.
  abbrev add_failed : Option CheckError → ℕ → ℕ
  add_failed none n = n
  add_failed (some e) n = suc n

  abbrev failed_checks : List Checker → ℕ
  failed_checks [] = 0
  failed_checks (c ∷ checks) = add_failed (check host c) (failed_checks checks)

  abbrev pub failed_in : List Category → ℕ
  failed_in [] = 0
  failed_in ((name, checks) ∷ rest) = failed_checks checks + failed_in rest

  module _ (style : Style) where
    add_message_iff :
        (c : Checker) (o : Option CheckError) (msgs : List (List Line))
        → (add_message style host c o msgs ≡ []) ↔ ((o ≡ none) × (msgs ≡ []))
    add_message_iff c none msgs = ground arith
    add_message_iff c (some e) msgs = ground arith

    messages_iff : (checks : List Checker) → (messages style host checks ≡ []) ↔ AllPass checks
    unfolding messages
    messages_iff [] = ground arith
    messages_iff (c ∷ checks) =
        let (to, from) = add_message_iff c (check host c) (messages style host checks) in
        let (ih, back) = messages_iff checks in
        (λ h. ((to h).0, ih (to h).1), λ p. from (p.0, back p.1))

    run_categories_iff :
        (cats : List Category) → ((run_categories style host cats).1 ≡ 0) ↔ AllCategoriesPass cats
    unfolding run_categories
    run_categories_iff [] = ground arith
    run_categories_iff ((name, checks) ∷ rest) =
        let (to, from) =
          count_failed_iff (messages style host checks) (run_categories style host rest).1 in
        let (ih, back) = run_categories_iff rest in
        let (all, passed) = messages_iff checks in
        (λ h. (all (to h).0, ih (to h).1), λ p. from (passed p.0, back p.1))

    -- The requirements are met exactly if every check of every category passes.
    pub check_requirements_iff :
        (controllers : List Text)
        → ((check_requirements style host controllers).1 ≡ none)
          ↔ AllCategoriesPass (categories controllers)
    unfolding check_requirements
    check_requirements_iff controllers =
        let (to, from) = found_issues_iff (run_categories style host (categories controllers)).1 in
        let (ih, back) = run_categories_iff (categories controllers) in
        (λ h. ih (to h), λ p. from (back p))

    add_message_length :
        (c : Checker) (o : Option CheckError) (msgs : List (List Line)) (n errs : ℕ)
        → count_failed msgs errs ≤ n + errs
        → count_failed (add_message style host c o msgs) errs ≤ add_failed o n + errs
    add_message_length c none msgs n errs h = h
    add_message_length c (some e) [] n errs h = omega (arith, h)
    add_message_length c (some e) (m ∷ msgs) n errs h = omega (arith, h)

    messages_count :
        (checks : List Checker) (errs : ℕ)
        → count_failed (messages style host checks) errs ≤ failed_checks checks + errs
    unfolding messages
    messages_count [] errs = omega arith
    messages_count (c ∷ checks) errs =
        add_message_length c (check host c) (messages style host checks) (failed_checks checks) errs
          (messages_count checks errs)

    count_failed_step : (msgs : List (List Line)) (n : ℕ) → count_failed msgs n ≤ suc n
    count_failed_step [] n = omega arith
    count_failed_step (m ∷ msgs) n = omega arith

    run_categories_count :
        (cats : List Category)
        → ((run_categories style host cats).1 ≤ failed_in cats)
          × ((run_categories style host cats).1 ≤ length cats)
    unfolding run_categories
    run_categories_count [] = (omega arith, omega arith)
    run_categories_count ((name, checks) ∷ rest) =
        let (ih, least) = run_categories_count rest in
        let errs = (run_categories style host rest).1 in
        (
          omega (arith, ih, messages_count checks errs),
          omega (arith, least, count_failed_step (messages style host checks) errs),
        )

    found_issues-some : (n m : ℕ) → found_issues n ≡ some m → (n ≡ m) × (0 < m)
    found_issues-some zero m h = ground arith
    found_issues-some (suc n) m h = ground arith

    -- The number of issues that the error tells is one at least and six at most, the number of the
    -- categories, and there are as many checks that fail, or more.
    pub check_requirements_count :
        (controllers : List Text) (n : ℕ)
        → (check_requirements style host controllers).1 ≡ some n
        → (0 < n) × (n ≤ 6) × (n ≤ failed_in (categories controllers))
    unfolding check_requirements categories
    check_requirements_count controllers n h =
        let (same, positive) = found_issues-some _ n h in
        let (least, most) = run_categories_count (categories controllers) in
        (positive, rw (← same) most, rw (← same) least)
