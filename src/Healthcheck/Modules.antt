-- ===== src/Healthcheck/Modules.antt =====
-- The check of a kernel module, and the lines of /proc/modules.
use linstor_gateway.Base.{
  ℕ, ◌==◌, Bool-cases, ◌≡◌, refl, ◌↔◌, Bool, true, false, ◌||◌, Option, none, some, List, [], ◌∷◌,
  ◌++◌, ◌⊎◌, inl, inr, map, arith, ap,
}
use linstor_gateway.Base.Outcome.{Error}
use linstor_gateway.Base.Text.{
  Text, eq, eq_iff, eq_refl, split, has_byte, split_whole, split-append, onto_first,
}
use linstor_gateway.Healthcheck.{
  Host, check, check_kernel_module_loaded, contains, head_of, first_word, lsmod, module_loaded,
}

-- The line is the word, or begins with it and a space.
abbrev pub Begins : Text → Text → Type 0
Begins name line = (line ≡ name) ⊎ ((rest : Text) × (line ≡ name ++ (b' ' ∷ rest)))

first_onto : (c : ℕ) (words : List Text) → head_of (onto_first c words) ≡ c ∷ head_of words
first_onto c [] = refl
first_onto c (w ∷ ws) = refl

first_word_cons : (c : ℕ) (s : Text) → (c == b' ') ≡ false → first_word (c ∷ s) ≡ c ∷ first_word s
unfolding split
first_word_cons c s h = rw h (first_onto c (split b' ' s))

first_word-Begins : (line : Text) → Begins (first_word line) line
unfolding split
first_word-Begins [] = inl refl
first_word-Begins (c ∷ s) = elim (Bool-cases (c == b' ')) [
  | inl space ↦ inr (s, let e : c ≡ b' ' = ground arith in rw (space, e) refl)
  | inr other ↦ rw (first_word_cons c s other) (longer c s (first_word s) (first_word-Begins s))
]
  where
    longer : (c : ℕ) (s name : Text) → Begins name s → Begins (c ∷ name) (c ∷ s)
    longer c s name (inl e) = inl (ap (◌∷◌ c) e)
    longer c s name (inr (rest, e)) = inr (rest, ap (◌∷◌ c) e)

Begins-first_word :
    (name line : Text) → has_byte b' ' name ≡ false → Begins name line → first_word line ≡ name
Begins-first_word name line h (inl e) = rw (e, split_whole b' ' name h) refl
Begins-first_word name line h (inr (rest, e)) = rw (e, split-append b' ' name rest h) refl

-- Some line begins with the word.
abbrev pub SomeBegins : Text → List Text → Type 0
SomeBegins name [] = ⊥
SomeBegins name (line ∷ lines) = Begins name line ⊎ SomeBegins name lines

contains_iff :
    (name : Text) (lines : List Text)
    → has_byte b' ' name ≡ false
    → (contains (map first_word lines) name ≡ true) ↔ SomeBegins name lines
unfolding contains
contains_iff name [] h = (λ e. cc, λ e. absurd e)
contains_iff name (line ∷ lines) h =
    let (to, from) = contains_iff name lines h in
    (
      λ e. elim (Bool-cases (eq (first_word line) name)) [
        | inl same ↦ inl (rw ((eq_iff (first_word line) name).0 same) at (first_word-Begins line))
        | inr other ↦ inr (to (rw other at e))
      ],
      λ s. found line lines from s,
    )
  where
    or_true : (b : Bool) → (b || true) ≡ true
    or_true b = ground arith

    found :
        (line : Text) (lines : List Text)
        → (SomeBegins name lines → contains (map first_word lines) name ≡ true)
        → SomeBegins name (line ∷ lines)
        → (eq (first_word line) name || contains (map first_word lines) name) ≡ true
    found line lines from (inl b) = rw (Begins-first_word name line h b, eq_refl name) refl
    found line lines from (inr s) = rw (from s) (or_true (eq (first_word line) name))

module_loaded_iff :
    (name : Text) (opened : Option Error) (lines : List Text) (scanned : Option Error)
    → has_byte b' ' name ≡ false
    → (module_loaded name (lsmod opened (lines, scanned)) ≡ none)
      ↔ ((opened ≡ none) × (scanned ≡ none) × SomeBegins name lines)
unfolding module_loaded lsmod
module_loaded_iff name (some e) lines scanned h = (λ p. cc, λ (p, q, r). cc)
module_loaded_iff name none lines (some e) h = (λ p. cc, λ (p, q, r). cc)
module_loaded_iff name none lines none h =
    let (to, from) = contains_iff name lines h in
    (λ p. (refl, refl, to (ground arith)), λ (p, q, r). rw (from r) refl)

-- The check of a kernel module, whose name holds no space, passes exactly if /proc/modules can be read
-- and a line of it is the name, or begins with the name and a space.
pub check-SomeBegins :
    (host : Host) (name package_name : Text)
    → has_byte b' ' name ≡ false
    → (check host (check_kernel_module_loaded name package_name) ≡ none) ↔ (
        (host.open_modules ≡ none)
        × (host.scan_modules.1 ≡ none)
        × SomeBegins name host.scan_modules.0)
unfolding check
check-SomeBegins host name package_name h =
    module_loaded_iff name host.open_modules host.scan_modules.0 host.scan_modules.1 h
