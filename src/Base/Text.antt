-- ===== src/Base/Text.antt =====
-- Go strings as lists of bytes, with the functions of `strings` that the program calls.
pub mod Laws
use Prim.Native.Char.{code}
use linstor_gateway.Base.{
  ℕ, zero, suc, ◌+◌, ◌≡◌, ◌≢◌, ◌↔◌, refl, ap, sym, Bool, true, false, not, ◌&&◌, ◌||◌, Option, none,
  some, List, [], ◌∷◌, ◌++◌, String, arith, ◌==◌, if◌then◌else◌,
}
use linstor_gateway.Base.Lists.{length, any}

abbrev pub Text : Type 0
Text = List ℕ

-- The bytes of a literal; every literal of the program is ASCII.
abbrev pub codes : String → Text
codes String.[] = []
codes (String.◌∷◌ c s) = code c ∷ codes s

unfoldable pub eq : Text → Text → Bool
eq [] [] = true
eq (x ∷ xs) (y ∷ ys) = x == y && eq xs ys
eq _ _ = false

pub eq_iff : (a b : Text) → (eq a b ≡ true) ↔ (a ≡ b)
unfolding eq
eq_iff (x ∷ a) (y ∷ b) = ground (arith, eq_iff a b)
eq_iff _ _ = ground arith

pub eq_refl : (a : Text) → eq a a ≡ true
eq_refl a = (eq_iff a a).1 refl

-- `s == ""`
abbrev pub is_empty : Text → Bool
is_empty [] = true
is_empty (c ∷ s) = false

-- A `map[string]V`, in the order in which a `range` loop happens to visit it.
abbrev pub Dict {ℓ} : Type ℓ → Type ℓ
Dict V = List (Text × V)

module _ {ℓ} {V : Type ℓ} where
  unfoldable pub lookup : Text → Dict V → Option V
  lookup k [] = none
  lookup k ((j, v) ∷ m) = if eq j k then some v else lookup k m

  unfoldable pub insert : Text → V → Dict V → Dict V
  insert key new [] = (key, new) ∷ []
  insert key new ((k, old) ∷ entries) =
      let rest = insert key new entries in
      if eq k key then (key, new) ∷ entries else (k, old) ∷ rest

  pub lookup-insert :
      (key other : Text) (new : V) (entries : Dict V)
      → lookup other (insert key new entries)
        ≡ (if eq key other then some new else lookup other entries)
  unfolding lookup insert
  lookup-insert key other new [] = refl
  lookup-insert key other new ((k, old) ∷ entries) =
      ground
        (arith, eq_iff k key, lookup-insert key other new entries, eq_iff k other, eq_iff key other)

-- `m[k]` of a `map[string]string`: the empty string where the key is missing.
abbrev or_empty : Option Text → Text
or_empty none = []
or_empty (some v) = v

abbrev pub attribute : Text → Dict Text → Text
attribute k m = or_empty (lookup k m)

-- `strings.HasPrefix(s, prefix)`
unfoldable pub has_prefix : Text → Text → Bool
has_prefix s [] = true
has_prefix [] (p ∷ ps) = false
has_prefix (c ∷ s) (p ∷ ps) = c == p && has_prefix s ps

-- `strings.Contains(s, substr)`
unfoldable pub contains : Text → Text → Bool
unfolding has_prefix
contains [] t = has_prefix [] t
contains (c ∷ s) t = has_prefix (c ∷ s) t || contains s t

-- `strings.Split(s, sep)` for a separator of one byte
abbrev pub onto_first : ℕ → List Text → List Text
onto_first c [] = (c ∷ []) ∷ []
onto_first c (w ∷ ws) = (c ∷ w) ∷ ws

unfoldable pub split : ℕ → Text → List Text
split sep [] = [] ∷ []
split sep (c ∷ s) = let rest = split sep s in if c == sep then [] ∷ rest else onto_first c rest

-- `strings.Join(parts, sep)` for a separator of one byte
unfoldable pub join : ℕ → List Text → Text
join sep [] = []
join sep (w ∷ []) = w
join sep (w ∷ v ∷ ws) = w ++ (sep ∷ join sep (v ∷ ws))

-- `strings.SplitN(s, sep, 2)` for a separator of one byte: what stands before the first
-- separator, and what stands behind it, if there is one.
abbrev cut_onto : ℕ → Text × Option Text → Text × Option Text
cut_onto c (w, r) = (c ∷ w, r)

unfoldable pub cut : ℕ → Text → Text × Option Text
cut sep [] = ([], none)
cut sep (c ∷ s) = let rest = cut sep s in if c == sep then ([], some s) else cut_onto c rest

abbrev pub has_byte : ℕ → Text → Bool
has_byte c s = any (λ d. d == c) s

pub cut-append :
    (sep : ℕ) (w r : Text) → has_byte sep w ≡ false → cut sep (w ++ (sep ∷ r)) ≡ (w, some r)
unfolding cut
cut-append sep [] r h = ground arith
cut-append sep (c ∷ w) r h = ground (arith, cut-append sep w r)

pub split_whole : (sep : ℕ) (w : Text) → has_byte sep w ≡ false → split sep w ≡ w ∷ []
unfolding split
split_whole sep [] h = refl
split_whole sep (c ∷ w) h = ground (arith, split_whole sep w)

pub split-append :
    (sep : ℕ) (w r : Text) → has_byte sep w ≡ false → split sep (w ++ (sep ∷ r)) ≡ w ∷ split sep r
unfolding split
split-append sep [] r h = ground arith
split-append sep (c ∷ w) r h = ground (arith, split-append sep w r)

-- No piece of a split holds the separator.
abbrev pub NoByte : ℕ → List Text → Type 0
NoByte sep [] = Unit
NoByte sep (w ∷ ws) = (has_byte sep w ≡ false) × NoByte sep ws

onto_first-NoByte :
    (sep c : ℕ) (ws : List Text) → (c == sep) ≡ false → NoByte sep ws → NoByte sep (onto_first c ws)
onto_first-NoByte sep c [] h n = ground arith
onto_first-NoByte sep c (w ∷ ws) h n = ground arith

pub split-NoByte : (sep : ℕ) (s : Text) → NoByte sep (split sep s)
unfolding split
split-NoByte sep [] = (refl, tt)
split-NoByte sep (c ∷ s) = ground (arith, split-NoByte sep s, onto_first-NoByte sep c (split sep s))

-- The scan `fmt.Sscanf(s, literal + "%s", &rest)` of one line, as far as the program reads it: the
-- literal, then one or more bytes that are no spaces.
unfoldable pub strip_prefix : Text → Text → Option Text
strip_prefix [] s = some s
strip_prefix (p ∷ ps) [] = none
strip_prefix (p ∷ ps) (c ∷ s) = if c == p then strip_prefix ps s else none

abbrev vertical_tab : ℕ
vertical_tab = 11

abbrev form_feed : ℕ
form_feed = 12

abbrev pub is_space : ℕ → Bool
is_space c =
    c == b' '
    || (c == b'\t' || (c == b'\n' || (c == b'\r' || (c == vertical_tab || c == form_feed))))

abbrev pub take_word : Text → Text
take_word [] = []
take_word (c ∷ s) = let rest = take_word s in if is_space c then [] else c ∷ rest

abbrev pub skip_spaces : Text → Text
skip_spaces [] = []
skip_spaces (c ∷ s) =
    let rest = skip_spaces s in if is_space c && not (c == b'\n') then rest else c ∷ s

abbrev scan_word : Text → Option Text
scan_word [] = none
scan_word (c ∷ s) = some (c ∷ s)

abbrev scan_rest : Option Text → Option Text
scan_rest none = none
scan_rest (some s) = scan_word (take_word (skip_spaces s))

unfoldable pub scan : Text → Text → Option Text
unfolding strip_prefix
scan prefix s = scan_rest (strip_prefix prefix s)
