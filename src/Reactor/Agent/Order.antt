-- ===== src/Reactor/Agent/Order.antt =====
-- `MarshalText` writes the same text in whatever order the attribute map is visited.
use mathlib.Core.Logic.{∥∥₁_elim}
use mathlib.Core.List.{Perm, Permᴰ}
use linstor_gateway.Base.{true, ◌≡◌, ◌⊎◌, inl, inr, refl, ap, ◌∙◌, List, [], ◌∷◌, map, arith}
use linstor_gateway.Base.Text.{Text}
use linstor_gateway.External.{External}
use linstor_gateway.Reactor.Agent.{
  ResourceAgent, text_le, insert_sorted, sort_strings, format_arg, marshal_agent,
}

text_le_total : (a b : Text) → (text_le a b ≡ true) ⊎ (text_le b a ≡ true)
unfolding text_le
text_le_total [] b = inl refl
text_le_total (x ∷ a) [] = inr refl
text_le_total (x ∷ a) (y ∷ b) = ground (arith, text_le_total a b)

text_le_antisymm : (a b : Text) → text_le a b ≡ true → text_le b a ≡ true → a ≡ b
unfolding text_le
text_le_antisymm [] [] h k = refl
text_le_antisymm [] (y ∷ b) h k = cc
text_le_antisymm (x ∷ a) [] h k = cc
text_le_antisymm (x ∷ a) (y ∷ b) h k = ground (arith, text_le_antisymm a b)

text_le_trans : (a b c : Text) → text_le a b ≡ true → text_le b c ≡ true → text_le a c ≡ true
unfolding text_le
text_le_trans [] b c h k = refl
text_le_trans (x ∷ a) [] c h k = cc
text_le_trans (x ∷ a) (y ∷ b) [] h k = cc
text_le_trans (x ∷ a) (y ∷ b) (z ∷ c) h k = ground (arith, text_le_trans a b c)

insert_sorted_comm :
    (a b : Text) (l : List Text)
    → insert_sorted a (insert_sorted b l) ≡ insert_sorted b (insert_sorted a l)
unfolding insert_sorted
insert_sorted_comm a b [] = ground (arith, text_le_total a b, text_le_antisymm a b)
insert_sorted_comm a b (c ∷ l) = ground (
  arith,
  text_le_total a b,
  text_le_antisymm a b,
  text_le_trans a b c,
  text_le_trans b a c,
  insert_sorted_comm a b l,
)

module _ (ext : External) where
  sort_strings-permᴰ :
      {xs ys : List (Text × Text)}
      → Permᴰ xs ys
      → sort_strings (map (format_arg ext) xs) ≡ sort_strings (map (format_arg ext) ys)
  unfolding sort_strings
  sort_strings-permᴰ Permᴰ.nil = refl
  sort_strings-permᴰ (Permᴰ.cons {a} {b} {l₁} {l₂} e p) =
      rw e (ap (insert_sorted (format_arg ext b)) (sort_strings-permᴰ p))
  sort_strings-permᴰ (Permᴰ.swap {a} {b} {a'} {b'} {l} e f) =
      rw (e, f)
        (insert_sorted_comm (format_arg ext b') (format_arg ext a')
          (sort_strings (map (format_arg ext) l)))
  sort_strings-permᴰ (Permᴰ.trans p q) = sort_strings-permᴰ p ∙ sort_strings-permᴰ q

  texts_set : IsSet (List Text)
  texts_set = hlevel

  -- The text of an agent does not depend on the order in which its attribute map is visited.
  pub marshal_agent-perm :
      (r : ResourceAgent) (attributes : List (Text × Text))
      → Perm r.attributes attributes
      → marshal_agent ext (record r { attributes = attributes }) ≡ marshal_agent ext r
  unfolding marshal_agent
  marshal_agent-perm r attributes p =
      let e : sort_strings (map (format_arg ext) r.attributes)
          ≡ sort_strings (map (format_arg ext) attributes) =
        ∥∥₁_elim p (texts_set _ _) sort_strings-permᴰ in
      rw e
