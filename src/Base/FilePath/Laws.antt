-- ===== src/Base/FilePath/Laws.antt =====
-- Cleaned paths: what `Clean` makes of a rooted path, and of one whose components are plain.
use mathlib.Core.List.{append-nil}
use linstor_gateway.Base.{
  ◌≡◌, refl, ap, ◌∙◌, ◌⊎◌, inl, inr, Bool, true, false, List, [], ◌∷◌, ◌++◌, Bool-cases,
}
use linstor_gateway.Base.Text.{
  Text, codes, eq, split, join, is_empty, has_byte, NoByte, split-NoByte,
}
use linstor_gateway.Base.Text.Laws.{split-join}
use linstor_gateway.Base.FilePath.{
  push_dotdot, push_component, components_onto, reverse_onto, clean, non_empty,
}

-- A component that names a file or a directory.
pub record IsPlain (w : Text) : Type 0 where
  pub no_slash : has_byte b'/' w ≡ false
  pub full : is_empty w ≡ false
  pub not_dot : eq w (codes ".") ≡ false
  pub not_dotdot : eq w (codes "..") ≡ false

abbrev pub AllPlain : List Text → Type 0
AllPlain [] = Unit
AllPlain (w ∷ ws) = IsPlain w × AllPlain ws

-- Plain components, with empty ones between them.
abbrev pub Gapped : List Text → Type 0
Gapped [] = Unit
Gapped (w ∷ ws) = ((w ≡ []) ⊎ IsPlain w) × Gapped ws

-- The path from the root along the components.
abbrev pub rooted : List Text → Text
rooted ws = b'/' ∷ join b'/' ws

push_plain :
    (r : Bool) (kept : List Text) (w : Text) → IsPlain w → push_component r kept w ≡ w ∷ kept
unfolding push_component
push_plain r kept w h = rw (h.full, h.not_dot, h.not_dotdot) refl

full_non_empty :
    (w : Text) (ws : List Text) → is_empty w ≡ false → non_empty (w ∷ ws) ≡ w ∷ non_empty ws
unfolding non_empty
full_non_empty w ws h = rw h refl

push_empty : (r : Bool) (kept : List Text) → push_component r kept [] ≡ kept
unfolding push_component
push_empty r kept = refl

non_empty_empty : (ws : List Text) → non_empty ([] ∷ ws) ≡ non_empty ws
unfolding non_empty
non_empty_empty ws = refl

non_empty_none : non_empty [] ≡ []
unfolding non_empty
non_empty_none = refl

reverse_kept :
    (out : List Text) (w : Text) (kept : List Text)
    → reverse_onto out (w ∷ kept) ≡ reverse_onto (w ∷ out) kept
unfolding reverse_onto
reverse_kept out w kept = refl

reverse-components :
    (r : Bool) (ws kept out : List Text)
    → Gapped ws
    → reverse_onto out (components_onto r kept ws) ≡ reverse_onto (non_empty ws ++ out) kept
unfolding components_onto
reverse-components r [] kept out h = rw non_empty_none refl
reverse-components r (w ∷ ws) kept out (inl e, g) =
    rw (e, push_empty r kept, non_empty_empty ws) (reverse-components r ws kept out g)
reverse-components r (w ∷ ws) kept out (inr p, g) =
    rw (push_plain r kept w p, full_non_empty w ws p.full)
      (reverse-components r ws (w ∷ kept) out g ∙ reverse_kept (non_empty ws ++ out) w kept)

reverse_none : (out : List Text) → reverse_onto out [] ≡ out
unfolding reverse_onto
reverse_none out = refl

no_slash_of : (ws : List Text) → Gapped ws → NoByte b'/' ws
no_slash_of [] g = tt
no_slash_of (w ∷ ws) (inl e, g) = (ap (has_byte b'/') e, no_slash_of ws g)
no_slash_of (w ∷ ws) (inr p, g) = (p.no_slash, no_slash_of ws g)

split-rooted : (ws : List Text) → split b'/' (rooted ws) ≡ [] ∷ split b'/' (join b'/' ws)
unfolding split
split-rooted ws = refl

-- A rooted path loses its empty components.
pub clean-Gapped :
    (w : Text) (ws : List Text)
    → Gapped (w ∷ ws)
    → clean (rooted (w ∷ ws)) ≡ rooted (non_empty (w ∷ ws))
unfolding clean eq
clean-Gapped w ws g = rw (split-rooted (w ∷ ws)) (
    rw (split-join b'/' w ws (no_slash_of (w ∷ ws) g)) (
      ap rooted (
        reverse-components true ([] ∷ w ∷ ws) [] [] (inl refl, g)
        ∙ ap (λ (vs : List Text). reverse_onto (vs ++ []) []) (non_empty_empty (w ∷ ws))
        ∙ reverse_none (non_empty (w ∷ ws) ++ [])
        ∙ append-nil (non_empty (w ∷ ws)))))

push_dotdot-AllPlain : (kept : List Text) → AllPlain kept → AllPlain (push_dotdot true kept)
unfolding push_dotdot
push_dotdot-AllPlain [] p = tt
push_dotdot-AllPlain (w ∷ ws) p = rw p.0.not_dotdot p.1

push_component-AllPlain :
    (kept : List Text) (w : Text)
    → AllPlain kept
    → has_byte b'/' w ≡ false
    → AllPlain (push_component true kept w)
unfolding push_component
push_component-AllPlain kept w p h = elim (Bool-cases (is_empty w)) [
  | inl e ↦ rw e p
  | inr e ↦ elim (Bool-cases (eq w (codes "."))) [
    | inl d ↦ rw (e, d) p
    | inr d ↦ elim (Bool-cases (eq w (codes ".."))) [
      | inl dd ↦ rw (e, d, dd) (push_dotdot-AllPlain kept p)
      | inr dd ↦ rw (e, d, dd) (record { no_slash = h; full = e; not_dot = d; not_dotdot = dd }, p)
    ]
  ]
]

components_onto-AllPlain :
    (kept ws : List Text) → AllPlain kept → NoByte b'/' ws → AllPlain (components_onto true kept ws)
unfolding components_onto
components_onto-AllPlain kept [] p n = p
components_onto-AllPlain kept (w ∷ ws) p n =
    components_onto-AllPlain (push_component true kept w) ws (push_component-AllPlain kept w p n.0)
      n.1

reverse_onto-AllPlain :
    (out ws : List Text) → AllPlain out → AllPlain ws → AllPlain (reverse_onto out ws)
unfolding reverse_onto
reverse_onto-AllPlain out [] p q = p
reverse_onto-AllPlain out (w ∷ ws) p q = reverse_onto-AllPlain (w ∷ out) ws (q.0, p) q.1

-- Whatever a rooted path holds, it is cleaned to a path from the root along plain components.
pub clean-AllPlain : (s : Text) → (ws : List Text) × AllPlain ws × (clean (b'/' ∷ s) ≡ rooted ws)
unfolding clean eq
clean-AllPlain s = (
  _,
  reverse_onto-AllPlain [] _ tt
      (components_onto-AllPlain [] (split b'/' (b'/' ∷ s)) tt (split-NoByte b'/' (b'/' ∷ s))),
  refl,
)

pub clean-clean :
    (s : Text) → (ws : List Text) × AllPlain ws × (clean (clean (b'/' ∷ s)) ≡ rooted ws)
clean-clean s = let (ws, p, e) = clean-AllPlain s in rw e (clean-AllPlain (join b'/' ws))

-- Plain components are Gapped, and none of them is empty.
pub gapped : (ws : List Text) → AllPlain ws → Gapped ws
gapped [] p = tt
gapped (w ∷ ws) p = (inr p.0, gapped ws p.1)

pub non_empty-AllPlain : (ws : List Text) → AllPlain ws → non_empty ws ≡ ws
unfolding non_empty
non_empty-AllPlain [] p = refl
non_empty-AllPlain (w ∷ ws) p = rw p.0.full (ap (◌∷◌ w) (non_empty-AllPlain ws p.1))

-- A path from the root along plain components is clean.
pub clean-rooted : (ws : List Text) → AllPlain ws → clean (rooted ws) ≡ rooted ws
clean-rooted [] p = unfold clean split push_component eq components_onto reverse_onto join in refl
clean-rooted (w ∷ ws) p =
    clean-Gapped w ws (gapped (w ∷ ws) p) ∙ ap rooted (non_empty-AllPlain (w ∷ ws) p)
