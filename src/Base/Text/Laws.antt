-- ===== src/Base/Text/Laws.antt =====
-- Joining what was split, and cutting at the last separator.
use linstor_gateway.Base.{
  ℕ, ◌≡◌, refl, ap, ◌∙◌, true, List, [], ◌∷◌, ◌++◌, arith, ◌==◌, Bool-cases, inl, inr,
}
use linstor_gateway.Base.Text.{
  Text, split, join, onto_first, has_prefix, NoByte, split_whole, split-append,
}

join-onto_first : (sep c : ℕ) (ws : List Text) → join sep (onto_first c ws) ≡ c ∷ join sep ws
unfolding join
join-onto_first sep c [] = refl
join-onto_first sep c (w ∷ []) = refl
join-onto_first sep c (w ∷ v ∷ ws) = refl

join-nil : (sep : ℕ) (s : Text) → join sep ([] ∷ split sep s) ≡ sep ∷ join sep (split sep s)
unfolding join split
join-nil sep [] = refl
join-nil sep (c ∷ s) = elim (Bool-cases (c == sep)) [
  | inl e ↦ rw e
  | inr e ↦ rw e (go (split sep s))
]
  where
    go : (ws : List Text) → join sep ([] ∷ onto_first c ws) ≡ sep ∷ join sep (onto_first c ws)
    go [] = refl
    go (w ∷ ws) = refl

-- The parts of a split, joined again, are the text.
pub join-split : (sep : ℕ) (s : Text) → join sep (split sep s) ≡ s
unfolding split
join-split sep [] = unfold join in refl
join-split sep (c ∷ s) = elim (Bool-cases (c == sep)) [
  | inl e ↦ rw e (join-nil sep s ∙ ap (◌∷◌ sep) (join-split sep s) ∙ ground arith)
  | inr e ↦ rw e (join-onto_first sep c (split sep s) ∙ ap (◌∷◌ c) (join-split sep s))
]

-- Splitting undoes the joining of parts that do not hold the separator, if there is one at least.
pub split-join :
    (sep : ℕ) (w : Text) (ws : List Text)
    → NoByte sep (w ∷ ws)
    → split sep (join sep (w ∷ ws)) ≡ w ∷ ws
unfolding join
split-join sep w [] n = split_whole sep w n.0
split-join sep w (v ∷ ws) n =
    split-append sep w (join sep (v ∷ ws)) n.0 ∙ ap (◌∷◌ w) (split-join sep v ws n.1)

pub has_prefix-append : (p s : Text) → has_prefix (p ++ s) p ≡ true
unfolding has_prefix
has_prefix-append [] s = refl
has_prefix-append (c ∷ p) s = ground (arith, has_prefix-append p s)
