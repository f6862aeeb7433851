-- ===== src/Iscsi/Iqn/Laws.antt =====
-- Which texts are parsed as an IQN, and that its text is read back.
use linstor_gateway.Base.{
  ℕ, not, true, false, ◌||◌, ◌≡◌, refl, ap, ◌↔◌, Option, none, some, [], ◌∷◌, ◌++◌, arith, ◌==◌,
  ◌≤◌,
}
use linstor_gateway.Base.Lists.{all, length, any-append}
use linstor_gateway.Base.Outcome.{ok}
use linstor_gateway.Base.Text.{Text, has_byte, is_empty}
use linstor_gateway.Iscsi.Iqn.{
  Iqn, is_domain, is_date_domain, is_resource_name, is_authority, cut_step, cut_last, match_groups,
  new_iqn, iqn_string, is_name_byte,
}

cut_last-append : (a w : Text) → has_byte b':' w ≡ false → cut_last (a ++ (b':' ∷ w)) ≡ some (a, w)
unfolding cut_last
cut_last-append [] w h = rw (cut_last_none w h)
  where
    cut_last_none : (w : Text) → has_byte b':' w ≡ false → cut_last w ≡ none
    cut_last_none [] h = refl
    cut_last_none (c ∷ w) h = ground (arith, cut_last_none w)
cut_last-append (c ∷ a) w h = rw (cut_last-append a w h)

cut_step_sound :
    (c : ℕ) (s : Text) (rest : Option (Text × Text)) (a w : Text)
    → ((a w : Text) → rest ≡ some (a, w) → s ≡ a ++ (b':' ∷ w))
    → cut_step c s rest ≡ some (a, w)
    → c ∷ s ≡ a ++ (b':' ∷ w)
unfolding cut_step
cut_step_sound c s none a w ih h =
    let e : (c ≡ b':') × (a ≡ []) × (w ≡ s) = ground arith in rw (e.0, e.1, e.2)
cut_step_sound c s (some (b, v)) a w ih h =
    let e : (a ≡ c ∷ b) × (w ≡ v) = ground arith in rw (e.0, e.1) (ap (◌∷◌ c) (ih b v refl))

cut_last_sound : (s a w : Text) → cut_last s ≡ some (a, w) → s ≡ a ++ (b':' ∷ w)
unfolding cut_last
cut_last_sound [] a w h = cc
cut_last_sound (c ∷ s) a w h = cut_step_sound c s (cut_last s) a w (cut_last_sound s) h

match_groups_lem :
    (o : Option (Text × Text)) (i : Iqn)
    → match_groups o ≡ ok i
    → (o ≡ some (i.authority, i.wwn))
      × (is_authority i.authority ≡ true)
      × (is_resource_name i.wwn ≡ true)
unfolding match_groups
match_groups_lem none i h = cc
match_groups_lem (some (a, w)) i h = ground arith

name_no_colon : (w : Text) → is_resource_name w ≡ true → has_byte b':' w ≡ false
unfolding is_resource_name
name_no_colon [] h = cc
name_no_colon (c ∷ []) h = cc
name_no_colon (c ∷ d ∷ s) h = ground (arith, go s)
  where
    go : (s : Text) → all is_name_byte s ≡ true → has_byte b':' s ≡ false
    go [] h = refl
    go (c ∷ s) h = ground (arith, go s)

name_length : (w : Text) → is_resource_name w ≡ true → 2 ≤ length w
unfolding is_resource_name
name_length [] h = cc
name_length (c ∷ []) h = cc
name_length (c ∷ d ∷ s) h = omega arith

-- A text is parsed as an IQN exactly if it is an authority in the expected format, a colon and a
-- resource name in LINSTOR's format, and these are the two parts.
pub new_iqn_iff :
    (s : Text) (i : Iqn)
    → (new_iqn s ≡ ok i)
      ↔ ((s ≡ iqn_string i) × (is_authority i.authority ≡ true) × (is_resource_name i.wwn ≡ true))
unfolding new_iqn iqn_string
new_iqn_iff s i = (
  λ h.
      let (e, a, w) = match_groups_lem (cut_last s) i h in
      (cut_last_sound s i.authority i.wwn e, a, w),
  λ h. rw (h.0, cut_last-append i.authority i.wwn (name_no_colon i.wwn h.2), h.1, h.2),
)

-- The unique part of a parsed IQN, which names the LINSTOR resource, has two bytes or more and no
-- colon, so `Valid` never refuses it as too short.
pub new_iqn_wwn :
    (s : Text) (i : Iqn) → new_iqn s ≡ ok i → (2 ≤ length i.wwn) × (has_byte b':' i.wwn ≡ false)
new_iqn_wwn s i h =
    let (e, a, w) = (new_iqn_iff s i).0 h in (name_length i.wwn w, name_no_colon i.wwn w)

domain_no_space : (s : Text) → is_domain s ≡ true → has_byte b' ' s ≡ false
unfolding is_domain
domain_no_space s h = go s (ground arith)
  where
    go : (s : Text) → all (λ c. not (c == b' ' || c == b'_')) s ≡ true → has_byte b' ' s ≡ false
    go [] h = refl
    go (c ∷ s) h = ground (arith, go s)

date_domain_no_space : (s : Text) → is_date_domain s ≡ true → has_byte b' ' s ≡ false
unfolding is_date_domain
date_domain_no_space (a ∷ b ∷ c ∷ d ∷ dash ∷ m ∷ n ∷ dot ∷ s) h = ground (arith, domain_no_space s)
date_domain_no_space _ h = cc

authority_no_space : (s : Text) → is_authority s ≡ true → has_byte b' ' s ≡ false
unfolding is_authority
authority_no_space (i ∷ q ∷ n ∷ dot ∷ s) h = ground (arith, date_domain_no_space s)
authority_no_space _ h = cc

name_no_space : (w : Text) → is_resource_name w ≡ true → has_byte b' ' w ≡ false
unfolding is_resource_name
name_no_space (c ∷ d ∷ s) h = ground (arith, go s)
  where
    go : (s : Text) → all is_name_byte s ≡ true → has_byte b' ' s ≡ false
    go [] h = refl
    go (c ∷ s) h = ground (arith, go s)
name_no_space _ h = cc

-- The two parts are as the regular expression wants them.
pub record IsIqn (i : Iqn) : Type 0 where
  pub authority : is_authority i.authority ≡ true
  pub name : is_resource_name i.wwn ≡ true

pub new_iqn-iqn_string : (i : Iqn) → IsIqn i → new_iqn (iqn_string i) ≡ ok i
new_iqn-iqn_string i h = (new_iqn_iff (iqn_string i) i).1 (refl, h.authority, h.name)

pub iqn_string_no_space : (i : Iqn) → IsIqn i → has_byte b' ' (iqn_string i) ≡ false
unfolding iqn_string
iqn_string_no_space i h =
    rw (any-append (λ d. d == b' ') i.authority (b':' ∷ i.wwn))
      (ground (arith, authority_no_space i.authority h.authority, name_no_space i.wwn h.name))

pub iqn_string_non_empty : (i : Iqn) → IsIqn i → is_empty (iqn_string i) ≡ false
unfolding iqn_string
iqn_string_non_empty i h = go i.authority
  where
    go : (a : Text) → is_empty (a ++ (b':' ∷ i.wwn)) ≡ false
    go [] = refl
    go (c ∷ a) = refl
