-- ===== src/Healthcheck/Units.antt =====
-- The checks of a systemd unit.
use linstor_gateway.Base.{◌≡◌, refl, ◌↔◌, Option, none, some, List, [], ◌∷◌, ◌⊎◌, inl, inr, arith}
use linstor_gateway.Base.Outcome.{Error}
use linstor_gateway.Base.Text.{Text, codes, eq_iff, eq_refl}
use linstor_gateway.Healthcheck.{
  Host, CheckError, check, check_started_and_enabled, check_not_started, unit_started_and_enabled,
  unit_active, after_connection, inverted,
}

-- systemd can be asked, and shows the unit in the state "active".
abbrev pub IsActive : Host → Text → Type 0
IsActive host service =
    (host.connect_systemd ≡ none)
    × (states : List Text) × (host.list_units service ≡ inr (codes "active" ∷ states))

unit_active_iff :
    (listed : Error ⊎ List Text)
    → (unit_active listed ≡ none)
      ↔ ((states : List Text) × (listed ≡ inr (codes "active" ∷ states)))
unfolding unit_active
unit_active_iff (inl e) = (λ h. cc, λ (states, h). cc)
unit_active_iff (inr []) = (λ h. cc, λ (states, h). cc)
unit_active_iff (inr (state ∷ states)) = (
  λ h. (states, rw (is_active state h) refl),
  λ (others, h). rw (first_active state states others h, eq_refl (codes "active")) refl,
)
  where
    is_active : (state : Text) → unit_active (inr (state ∷ states)) ≡ none → state ≡ codes "active"
    is_active state h = ground (arith, eq_iff state (codes "active"))

    first_active :
        (state : Text) (states others : List Text)
        → ◌≡◌ {A = Error ⊎ List Text} (inr (state ∷ states)) (inr (codes "active" ∷ others))
        → state ≡ codes "active"
    first_active state states others h = ground arith

after_connection_iff :
    (connect : Option Error) (listed : Error ⊎ List Text)
    → (after_connection connect listed ≡ none)
      ↔ ((connect ≡ none) × (states : List Text) × (listed ≡ inr (codes "active" ∷ states)))
unfolding after_connection
after_connection_iff (some e) listed = (λ h. cc, λ (impossible, states, found). cc)
after_connection_iff none listed =
    let (to, from) = unit_active_iff listed in
    (λ h. (refl, (to h).0, (to h).1), λ (e, states, found). from (states, found))

inverted_iff : (o : Option CheckError) → (inverted o ≡ none) ↔ (¬ (o ≡ none))
unfolding inverted
inverted_iff none = (λ h. cc, λ h. absurd (h refl))
inverted_iff (some e) = (λ h p. cc, λ h. refl)

-- The check that a service is started passes exactly if systemd can be asked and shows its unit as
-- active, whether it is enabled or not. The check that it is not started passes in all other cases,
-- those included in which systemd cannot be asked.
pub check-IsActive :
    (host : Host) (service package_name : Text)
    → ((check host (check_started_and_enabled service package_name) ≡ none) ↔ IsActive host service)
      × ((check host (check_not_started service) ≡ none) ↔ (¬ IsActive host service))
unfolding check unit_started_and_enabled
check-IsActive host service package_name =
    let (to, from) = after_connection_iff host.connect_systemd (host.list_units service) in
    let (passes, refused) =
      inverted_iff (after_connection host.connect_systemd (host.list_units service)) in
    ((to, from), (λ h a. passes h (from a), λ n. refused (λ h. n (to h))))
