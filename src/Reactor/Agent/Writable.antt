-- ===== src/Reactor/Agent/Writable.antt =====
-- The agents that can be written to a command line and read back, what is assumed of the shell
-- package, and how the arguments are read.
use mathlib.Core.List.{append_assoc, append-nil}
use linstor_gateway.Base.{
  ℕ, Bool, true, false, not, ◌&&◌, ◌||◌, ◌≡◌, refl, ap, ◌∙◌, List, [], ◌∷◌, ◌++◌, map, arith, leb,
  ◌==◌, some,
}
use linstor_gateway.Base.Lists.{all}
use linstor_gateway.Base.Outcome.{ok}
use linstor_gateway.Base.Text.{Text, Dict, eq, eq_iff, insert, join, cut-append, has_byte}
use linstor_gateway.External.{External}
use linstor_gateway.Reactor.Agent.{ResourceAgent, read_args}

-- A byte that a shell takes as it stands.
abbrev pub is_plain_byte : ℕ → Bool
is_plain_byte c =
    (leb b'a' c && leb c b'z')
    || ((leb b'A' c && leb c b'Z')
        || ((leb b'0' c && leb c b'9') || (c == b'_' || (c == b'-' || (c == b':' || c == b'.')))))

abbrev pub is_plain : Text → Bool
is_plain [] = false
is_plain (c ∷ s) = is_plain_byte c && all is_plain_byte s

-- A word of a command line: as it stands, or a name, `=` and a quoted value.
pub data Word : Type 0 where
  bare : Text → Word
  assign : Text → Text → Word

abbrev pub word_name : Word → Text
word_name (bare w) = w
word_name (assign k v) = k

abbrev pub written : External → Word → Text
written ext (bare w) = w
written ext (assign k v) = k ++ (b'=' ∷ ext.shell_quote v)

abbrev pub meant : Word → Text
meant (bare w) = w
meant (assign k v) = k ++ (b'=' ∷ v)

abbrev pub AllPlain : List Word → Type 0
AllPlain [] = Unit
AllPlain (w ∷ ws) = (is_plain (word_name w) ≡ true) × AllPlain ws

-- The last byte is no space, and there is one.
abbrev pub ends_well : Text → Bool
ends_well [] = false
ends_well (c ∷ []) = not (c == b' ')
ends_well (c ∷ d ∷ s) = ends_well (d ∷ s)

-- What the program relies on of `shell`: quoting is undone by splitting, and a quoted text does not
-- end in a space.
pub record ShellLaws (ext : External) : Type 0 where
  pub split_written :
      (ws : List Word)
      → AllPlain ws
      → ext.shell_split (join b' ' (map (written ext) ws)) ≡ some (map meant ws)
  pub quote_ends : (v : Text) → ends_well (ext.shell_quote v) ≡ true

-- Type, name and attribute names are plain words.
abbrev pub PlainKeys : Dict Text → Type 0
PlainKeys [] = Unit
PlainKeys ((k, v) ∷ m) = (is_plain k ≡ true) × PlainKeys m

abbrev pub NotKey : Text → Dict Text → Type 0
NotKey k [] = Unit
NotKey k ((j, v) ∷ m) = (eq j k ≡ false) × NotKey k m

-- The keys of a map differ.
abbrev pub Distinct : Dict Text → Type 0
Distinct [] = Unit
Distinct ((k, v) ∷ m) = NotKey k m × Distinct m

pub record IsWritable (r : ResourceAgent) : Type 0 where
  pub plain_type : is_plain r.type ≡ true
  pub plain_name : is_plain r.name ≡ true
  pub plain_keys : PlainKeys r.attributes
  pub distinct : Distinct r.attributes

pub eq_comm_false : (a b : Text) → eq a b ≡ false → eq b a ≡ false
eq_comm_false a b h = ground (arith, eq_iff a b, eq_iff b a)

pub plain_no_eq : (k : Text) → is_plain k ≡ true → has_byte b'=' k ≡ false
plain_no_eq [] h = cc
plain_no_eq (c ∷ s) h = ground (arith, go s)
  where
    go : (s : Text) → all is_plain_byte s ≡ true → has_byte b'=' s ≡ false
    go [] h = refl
    go (c ∷ s) h = ground (arith, go s)

-- Reading the arguments back builds the map in the order of the arguments.
abbrev pub arg : Text × Text → Text
arg (k, v) = k ++ (b'=' ∷ v)

insert-NotKey : (k v : Text) (m : Dict Text) → NotKey k m → insert k v m ≡ m ++ (k, v) ∷ []
unfolding insert
insert-NotKey k v [] n = refl
insert-NotKey k v ((j, w) ∷ m) n = ground (arith, insert-NotKey k v m)

NotKey-before : (j k v : Text) (acc m : Dict Text) → NotKey j (acc ++ (k, v) ∷ m) → eq k j ≡ false
NotKey-before j k v [] m n = n.0
NotKey-before j k v (x ∷ acc) m n = NotKey-before j k v acc m n.1

Distinct-NotKey : (k v : Text) (acc m : Dict Text) → Distinct (acc ++ (k, v) ∷ m) → NotKey k acc
Distinct-NotKey k v [] m d = tt
Distinct-NotKey k v ((j, w) ∷ acc) m d =
    (eq_comm_false k j (NotKey-before j k v acc m d.0), Distinct-NotKey k v acc m d.1)

read_args_step :
    (ext : External) (k v : Text) (acc : Dict Text) (args : List Text)
    → is_plain k ≡ true
    → read_args ext acc ((k ++ (b'=' ∷ v)) ∷ args) ≡ read_args ext (insert k v acc) args
unfolding read_args
read_args_step ext k v acc args p = ground (arith, cut-append b'=' k v (plain_no_eq k p))

pub read_args_lem :
    (ext : External) (m acc : Dict Text)
    → PlainKeys m
    → Distinct (acc ++ m)
    → read_args ext acc (map arg m) ≡ ok (acc ++ m)
read_args_lem ext [] acc p d = rw append-nil (unfold read_args in refl)
read_args_lem ext ((k, v) ∷ m) acc p d =
    read_args_step ext k v acc (map arg m) p.0
    ∙ rw (insert-NotKey k v acc (Distinct-NotKey k v acc m d)) (
        read_args_lem ext m (acc ++ (k, v) ∷ []) p.1 (rw append_assoc d)
        ∙ ap ok (append_assoc acc ((k, v) ∷ []) m))
