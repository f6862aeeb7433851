-- ===== src/Reactor/Agent/Sorting.antt =====
-- Sorting the written arguments sorts the attribute map, and keeps what makes it writable.
use mathlib.Core.List.{Perm}
use mathlib.Core.List.Perm
use linstor_gateway.Base.{
  true, false, ◌≡◌, inl, inr, refl, ap, ◌∙◌, [], ◌∷◌, map, if◌then◌else◌, Bool-cases,
}
use linstor_gateway.Base.Text.{Text, Dict, eq}
use linstor_gateway.External.{External}
use linstor_gateway.Reactor.Agent.Writable.{is_plain, PlainKeys, NotKey, Distinct, eq_comm_false}
use linstor_gateway.Reactor.Agent.{text_le, insert_sorted, sort_strings, format_arg}

-- Sorting the written arguments sorts the map.
insert_attribute : External → Text × Text → Dict Text → Dict Text
insert_attribute ext x [] = x ∷ []
insert_attribute ext x (y ∷ m) =
    if text_le (format_arg ext x) (format_arg ext y)
    then x ∷ y ∷ m
    else y ∷ insert_attribute ext x m

pub sort_attributes : External → Dict Text → Dict Text
unfolding insert_attribute
sort_attributes ext [] = []
sort_attributes ext (x ∷ m) = insert_attribute ext x (sort_attributes ext m)

module _ (ext : External) where
  map-insert_attribute :
      (x : Text × Text) (m : Dict Text)
      → map (format_arg ext) (insert_attribute ext x m)
        ≡ insert_sorted (format_arg ext x) (map (format_arg ext) m)
  unfolding insert_attribute insert_sorted
  map-insert_attribute x [] = refl
  map-insert_attribute x (y ∷ m) =
      elim (Bool-cases (text_le (format_arg ext x) (format_arg ext y))) [
        | inl e ↦ rw e
        | inr e ↦ rw e (ap (◌∷◌ (format_arg ext y)) (map-insert_attribute x m))
      ]

  pub map-sort_attributes :
      (m : Dict Text)
      → map (format_arg ext) (sort_attributes ext m) ≡ sort_strings (map (format_arg ext) m)
  unfolding sort_attributes sort_strings
  map-sort_attributes [] = refl
  map-sort_attributes (x ∷ m) =
      map-insert_attribute x (sort_attributes ext m)
      ∙ ap (insert_sorted (format_arg ext x)) (map-sort_attributes m)

  insert_attribute-perm :
      (x : Text × Text) (m : Dict Text) → Perm (insert_attribute ext x m) (x ∷ m)
  unfolding insert_attribute
  insert_attribute-perm x [] = Perm.refl (x ∷ [])
  insert_attribute-perm x (y ∷ m) =
      elim (Bool-cases (text_le (format_arg ext x) (format_arg ext y))) [
        | inl e ↦ rw e (Perm.refl (x ∷ y ∷ m))
        | inr e ↦ rw e (Perm.trans (Perm.cons y (insert_attribute-perm x m)) (Perm.swap x y m))
      ]

  pub sort_attributes-perm : (m : Dict Text) → Perm (sort_attributes ext m) m
  unfolding sort_attributes
  sort_attributes-perm [] = Perm.refl []
  sort_attributes-perm (x ∷ m) =
      Perm.trans (insert_attribute-perm x (sort_attributes ext m))
        (Perm.cons x (sort_attributes-perm m))

  insert_attribute-PlainKeys :
      (k v : Text) (m : Dict Text)
      → is_plain k ≡ true
      → PlainKeys m
      → PlainKeys (insert_attribute ext (k, v) m)
  unfolding insert_attribute
  insert_attribute-PlainKeys k v [] p q = (p, tt)
  insert_attribute-PlainKeys k v ((j, w) ∷ m) p q =
      elim (Bool-cases (text_le (format_arg ext (k, v)) (format_arg ext (j, w)))) [
        | inl e ↦ rw e (p, q)
        | inr e ↦ rw e (q.0, insert_attribute-PlainKeys k v m p q.1)
      ]

  pub sort_attributes-PlainKeys : (m : Dict Text) → PlainKeys m → PlainKeys (sort_attributes ext m)
  unfolding sort_attributes
  sort_attributes-PlainKeys [] p = tt
  sort_attributes-PlainKeys ((k, v) ∷ m) p =
      insert_attribute-PlainKeys k v (sort_attributes ext m) p.0 (sort_attributes-PlainKeys m p.1)

  insert_attribute-NotKey :
      (j k v : Text) (m : Dict Text)
      → eq k j ≡ false
      → NotKey j m
      → NotKey j (insert_attribute ext (k, v) m)
  unfolding insert_attribute
  insert_attribute-NotKey j k v [] h n = (h, tt)
  insert_attribute-NotKey j k v ((i, w) ∷ m) h n =
      elim (Bool-cases (text_le (format_arg ext (k, v)) (format_arg ext (i, w)))) [
        | inl e ↦ rw e (h, n)
        | inr e ↦ rw e (n.0, insert_attribute-NotKey j k v m h n.1)
      ]

  insert_attribute-Distinct :
      (k v : Text) (m : Dict Text)
      → NotKey k m
      → Distinct m
      → Distinct (insert_attribute ext (k, v) m)
  unfolding insert_attribute
  insert_attribute-Distinct k v [] n d = (tt, tt)
  insert_attribute-Distinct k v ((j, w) ∷ m) n d =
      elim (Bool-cases (text_le (format_arg ext (k, v)) (format_arg ext (j, w)))) [
        | inl e ↦ rw e (n, d)
        | inr e ↦ rw e (
          insert_attribute-NotKey j k v m (eq_comm_false j k n.0) d.0,
          insert_attribute-Distinct k v m n.1 d.1,
        )
      ]

  sort_attributes-NotKey :
      (j : Text) (m : Dict Text) → NotKey j m → NotKey j (sort_attributes ext m)
  unfolding sort_attributes
  sort_attributes-NotKey j [] n = tt
  sort_attributes-NotKey j ((k, v) ∷ m) n =
      insert_attribute-NotKey j k v (sort_attributes ext m) n.0 (sort_attributes-NotKey j m n.1)

  pub sort_attributes-Distinct : (m : Dict Text) → Distinct m → Distinct (sort_attributes ext m)
  unfolding sort_attributes
  sort_attributes-Distinct [] d = tt
  sort_attributes-Distinct ((k, v) ∷ m) d =
      insert_attribute-Distinct k v (sort_attributes ext m) (sort_attributes-NotKey k m d.0)
        (sort_attributes-Distinct m d.1)
