-- ===== src/Nvmeof/Nqn.antt =====
-- pkg/nvmeof/nqn.go: NVMe qualified names.
pub mod Laws
use linstor_gateway.Base.{List, [], ◌∷◌, ◌++◌}
use linstor_gateway.Base.Outcome.{Result, ok, fail}
use linstor_gateway.Base.Text.{Text, codes, split}
use linstor_gateway.Common.Status.{Json, string, other}

pub record Nqn : Type 0 where
  pub vendor : Text
  pub subsystem : Text

parts_of : List Text → Result Nqn
parts_of (vendor ∷ middle ∷ subsystem ∷ []) = ok (record { vendor = vendor; subsystem = subsystem })
parts_of _ = fail "NQN '%s' malformed, expected <vendor>:nvme:<subsystem>"

-- `UnmarshalText`, and `NewNqn` on a fresh value
unfoldable pub new_nqn : Text → Result Nqn
unfolding parts_of
new_nqn s = parts_of (split b':' s)

unfoldable pub nqn_string : Nqn → Text
nqn_string n = n.vendor ++ (b':' ∷ (codes "nvme" ++ (b':' ∷ n.subsystem)))

unfoldable pub unmarshal_nqn : Json → Result Nqn
unfolding new_nqn
unmarshal_nqn (string s) = new_nqn s
unmarshal_nqn other = fail "json: cannot unmarshal into string"

unfoldable pub marshal_nqn : Nqn → Json
unfolding nqn_string
marshal_nqn n = string (nqn_string n)
