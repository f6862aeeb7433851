-- ===== src/Iscsi/Iqn.antt =====
-- pkg/iscsi/iqn.go: iSCSI qualified names. The regular expression is
-- `^(iqn\.\d{4}-[0-1][0-9]\.[^ _]*\.[^ _]*):([[:alpha:]][[:alnum:]-]+)$`. The second group holds no
-- colon, so a match cuts the text at its last colon.
pub mod Laws
use linstor_gateway.Base.{
  ℕ, Bool, true, false, not, ◌&&◌, ◌||◌, Option, none, some, List, [], ◌∷◌, ◌++◌, leb, ◌==◌,
  if◌then◌else◌,
}
use linstor_gateway.Base.Lists.{all, any, drop}
use linstor_gateway.Base.Outcome.{Result, ok, fail}
use linstor_gateway.Base.Text.{Text, codes, has_byte}
use linstor_gateway.Common.Status.{Json, string, other}

-- `[2]string`
pub record Iqn : Type 0 where
  pub authority : Text
  pub wwn : Text

abbrev is_digit : ℕ → Bool
is_digit c = leb b'0' c && leb c b'9'

abbrev is_alpha : ℕ → Bool
is_alpha c = (leb b'a' c && leb c b'z') || (leb b'A' c && leb c b'Z')

abbrev is_name_byte : ℕ → Bool
is_name_byte c = is_alpha c || (is_digit c || c == b'-')

-- `[[:alpha:]][[:alnum:]-]+`
unfoldable pub is_resource_name : Text → Bool
is_resource_name (c ∷ d ∷ s) = is_alpha c && (is_name_byte d && all is_name_byte s)
is_resource_name _ = false

-- `[^ _]*\.[^ _]*`
is_domain : Text → Bool
is_domain s = all (λ c. not (c == b' ' || c == b'_')) s && has_byte b'.' s

-- `\d{4}-[0-1][0-9]\.` and the domain
is_date_domain : Text → Bool
unfolding is_domain
is_date_domain (a ∷ b ∷ c ∷ d ∷ dash ∷ m ∷ n ∷ dot ∷ s) =
    is_digit a
    && (is_digit b
        && (is_digit c
            && (is_digit d
                && (dash == b'-'
                    && ((m == b'0' || m == b'1')
                        && (is_digit n && (dot == b'.' && is_domain s)))))))
is_date_domain _ = false

-- `iqn\.\d{4}-[0-1][0-9]\.[^ _]*\.[^ _]*`
unfoldable pub is_authority : Text → Bool
unfolding is_date_domain
is_authority (i ∷ q ∷ n ∷ dot ∷ s) =
    i == b'i' && (q == b'q' && (n == b'n' && (dot == b'.' && is_date_domain s)))
is_authority _ = false

-- What stands before and behind the last colon.
cut_step : ℕ → Text → Option (Text × Text) → Option (Text × Text)
cut_step c s none = if c == b':' then some ([], s) else none
cut_step c s (some (a, w)) = some (c ∷ a, w)

unfoldable pub cut_last : Text → Option (Text × Text)
unfolding cut_step
cut_last [] = none
cut_last (c ∷ s) = cut_step c s (cut_last s)

match_groups : Option (Text × Text) → Result Iqn
match_groups none =
    fail
      "'%s' is not a valid IQN. expected format: iqn.YYYY-MM.DOTTED.DOMAIN.NAME:UNIQUE_RESOURCE_NAME"
match_groups (some (a, w)) =
    if is_authority a && is_resource_name w
    then ok (record { authority = a; wwn = w })
    else fail
        "'%s' is not a valid IQN. expected format: iqn.YYYY-MM.DOTTED.DOMAIN.NAME:UNIQUE_RESOURCE_NAME"

-- `UnmarshalText`, and `NewIqn` on a fresh value
unfoldable pub new_iqn : Text → Result Iqn
unfolding match_groups
new_iqn s = match_groups (cut_last s)

unfoldable pub iqn_string : Iqn → Text
iqn_string i = i.authority ++ (b':' ∷ i.wwn)

unfoldable pub unmarshal_iqn : Json → Result Iqn
unfolding new_iqn
unmarshal_iqn (string s) = new_iqn s
unmarshal_iqn other = fail "json: cannot unmarshal into string"

unfoldable pub marshal_iqn : Iqn → Json
unfolding iqn_string
marshal_iqn i = string (iqn_string i)
