-- ===== src/Reactor/Agent.antt =====
-- pkg/reactor/resourceagent.go and service.go: the entries of a promoter's start list.
pub mod Order
pub mod Writable
pub mod Sorting
pub mod RoundTrip
use linstor_gateway.Base.{
  Bool, true, false, ◌||◌, Option, none, some, List, [], ◌∷◌, ◌++◌, map, if◌then◌else◌, ltb, ◌==◌,
  ℕ,
}
use linstor_gateway.Base.Outcome.{Result, ok, err, panic, fail, ◌>>=◌}
use linstor_gateway.Base.Text.{Text, Dict, codes, eq, insert, join, cut, is_empty}
use linstor_gateway.External.{External}

pub record ResourceAgent : Type 0 where
  pub type : Text
  pub name : Text
  pub attributes : Dict Text

-- The two implementations of the interface `StartEntry`; a systemd service is its name.
pub data StartEntry : Type 0 where
  resource_agent : ResourceAgent → StartEntry
  systemd_service : Text → StartEntry

-- `a <= b` of Go strings
unfoldable pub text_le : Text → Text → Bool
text_le [] b = true
text_le (x ∷ a) [] = false
text_le (x ∷ a) (y ∷ b) = let rest = text_le a b in if x == y then rest else ltb x y

-- `sort.Strings`
unfoldable pub insert_sorted : Text → List Text → List Text
insert_sorted a [] = a ∷ []
insert_sorted a (b ∷ bs) = if text_le a b then a ∷ b ∷ bs else b ∷ insert_sorted a bs

unfoldable pub sort_strings : List Text → List Text
unfolding insert_sorted
sort_strings [] = []
sort_strings (a ∷ as') = insert_sorted a (sort_strings as')

-- `strings.Trim(s, " ")`
unfoldable pub trim_left : Text → Text
trim_left [] = []
trim_left (c ∷ s) = let rest = trim_left s in if c == b' ' then rest else c ∷ s

onto_trimmed : ℕ → Text → Text
onto_trimmed c [] = if c == b' ' then [] else c ∷ []
onto_trimmed c (d ∷ s) = c ∷ d ∷ s

unfoldable pub trim_right : Text → Text
unfolding onto_trimmed
trim_right [] = []
trim_right (c ∷ s) = onto_trimmed c (trim_right s)

unfoldable pub trim : Text → Text
unfolding trim_left trim_right
trim s = trim_right (trim_left s)

module _ (ext : External) where
  -- One `name=value` argument, with the value quoted.
  unfoldable pub format_arg : Text × Text → Text
  format_arg (k, v) = k ++ (b'=' ∷ ext.shell_quote v)

  unfoldable pub marshal_agent : ResourceAgent → Result Text
  unfolding format_arg sort_strings trim
  marshal_agent r =
      if is_empty r.type
      then fail "invalid resource agent without type"
      else if is_empty r.name
      then fail "invalid resource agent without name"
      else ok (
          trim (
            r.type
            ++ (b' '
                ∷ (r.name ++ (b' ' ∷ join b' ' (sort_strings (map format_arg r.attributes)))))))

  -- The loop over the arguments, on the map built so far.
  unfoldable pub read_args : Dict Text → List Text → Result (Dict Text)
  read_args attributes [] = ok attributes
  read_args attributes (arg ∷ args) =
      let (k, value) = cut b'=' arg in
      elim value [
        | none ↦ fail "expected key=value pairs as arguments"
        | some v ↦ read_args (insert k v attributes) args
      ]

  unfoldable pub unmarshal_parts : ResourceAgent → Option (List Text) → Result ResourceAgent
  unfolding read_args
  unmarshal_parts r (some (type ∷ name ∷ args)) = do
    attributes ← read_args r.attributes args
    ok (record { type = type; name = name; attributes = attributes })
  unmarshal_parts r _ = fail "expected at least type and name"

  -- `r` is the receiver before the call: a fresh agent at both call sites.
  unfoldable pub unmarshal_agent : ResourceAgent → Text → Result ResourceAgent
  unfolding unmarshal_parts
  unmarshal_agent r text = unmarshal_parts r (ext.shell_split text)

  unfoldable pub marshal_entry : StartEntry → Result Text
  unfolding marshal_agent
  marshal_entry (resource_agent r) = marshal_agent r
  marshal_entry (systemd_service name) = ok name

abbrev pub fresh_agent : ResourceAgent
fresh_agent = record { type = []; name = []; attributes = [] }
