-- ===== src/Reactor/Agent/RoundTrip.antt =====
-- `UnmarshalText` reads back what `MarshalText` writes.
use mathlib.Core.List.{Perm, append_assoc}
use linstor_gateway.Base.{true, false, ◌≡◌, refl, sym, ap, ◌∙◌, List, [], ◌∷◌, ◌++◌, map, arith}
use linstor_gateway.Base.Outcome.{ok}
use linstor_gateway.Base.Text.{Text, Dict, join, is_empty}
use linstor_gateway.External.{External}
use linstor_gateway.Reactor.Agent.Writable.{
  is_plain, Word, bare, assign, written, meant, AllPlain, ends_well, ShellLaws, PlainKeys, Distinct,
  IsWritable, arg, read_args_lem,
}
use linstor_gateway.Reactor.Agent.Sorting.{
  sort_attributes, map-sort_attributes, sort_attributes-perm, sort_attributes-PlainKeys,
  sort_attributes-Distinct,
}
use linstor_gateway.Reactor.Agent.{
  ResourceAgent, format_arg, trim_left, trim_right, trim, marshal_agent, unmarshal_agent,
  fresh_agent,
}

ends-append : (a b : Text) → ends_well b ≡ true → ends_well (a ++ b) ≡ true
ends-append [] b h = h
ends-append (c ∷ []) [] h = cc
ends-append (c ∷ []) (d ∷ b) h = h
ends-append (c ∷ d ∷ a) b h = ends-append (d ∷ a) b h

trim_right_well : (s : Text) → ends_well s ≡ true → trim_right s ≡ s
unfolding trim_right
trim_right_well [] h = cc
trim_right_well (c ∷ []) h = ground arith
trim_right_well (c ∷ d ∷ s) h = ground (arith, trim_right_well (d ∷ s))

trim_right_space : (s : Text) → ends_well s ≡ true → trim_right (s ++ b' ' ∷ []) ≡ s
unfolding trim_right
trim_right_space [] h = cc
trim_right_space (c ∷ []) h = ground arith
trim_right_space (c ∷ d ∷ s) h = ground (arith, trim_right_space (d ∷ s))

plain_ends : (w : Text) → is_plain w ≡ true → ends_well w ≡ true
plain_ends [] h = cc
plain_ends (c ∷ []) h = ground arith
plain_ends (c ∷ d ∷ w) h = plain_ends (d ∷ w) (ground arith)

-- A text that begins with a plain word has no space to trim on the left.
trim_left_plain : (w s : Text) → is_plain w ≡ true → trim_left (w ++ s) ≡ w ++ s
unfolding trim_left
trim_left_plain [] s h = cc
trim_left_plain (c ∷ w) s h = ground arith

plain_ne_empty : (w : Text) → is_plain w ≡ true → is_empty w ≡ false
plain_ne_empty [] h = cc
plain_ne_empty (c ∷ w) h = refl

module _ (ext : External) (laws : ShellLaws ext) where
  arguments : Dict Text → List Word
  arguments [] = []
  arguments ((k, v) ∷ m) = assign k v ∷ arguments m

  written-arguments : (m : Dict Text) → map (written ext) (arguments m) ≡ map (format_arg ext) m
  unfolding arguments format_arg
  written-arguments [] = refl
  written-arguments ((k, v) ∷ m) = ap (◌∷◌ (format_arg ext (k, v))) (written-arguments m)

  meant-arguments : (m : Dict Text) → map meant (arguments m) ≡ map arg m
  unfolding arguments
  meant-arguments [] = refl
  meant-arguments ((k, v) ∷ m) = ap (◌∷◌ (arg (k, v))) (meant-arguments m)

  plain_arguments : (m : Dict Text) → PlainKeys m → AllPlain (arguments m)
  unfolding arguments
  plain_arguments [] p = tt
  plain_arguments ((k, v) ∷ m) p = (p.0, plain_arguments m p.1)

  join_ends :
      (x : Text × Text) (m : Dict Text)
      → ends_well (join b' ' (map (format_arg ext) (x ∷ m))) ≡ true
  unfolding join format_arg
  join_ends (k, v) [] =
      ends-append k (b'=' ∷ ext.shell_quote v)
        (ends-append (b'=' ∷ []) (ext.shell_quote v) (laws.quote_ends v))
  join_ends (k, v) (y ∷ m) =
      ends-append (k ++ (b'=' ∷ ext.shell_quote v))
        (b' ' ∷ join b' ' (map (format_arg ext) (y ∷ m)))
        (ends-append (b' ' ∷ []) (join b' ' (map (format_arg ext) (y ∷ m))) (join_ends y m))

  -- The text of an agent is a command line of plain words and arguments.
  line :
      (type name : Text) (m : Dict Text)
      → is_plain type ≡ true
      → is_plain name ≡ true
      → trim (type ++ (b' ' ∷ (name ++ (b' ' ∷ join b' ' (map (format_arg ext) m)))))
        ≡ join b' ' (map (written ext) (bare type ∷ bare name ∷ arguments m))
  unfolding trim join arguments
  line type name [] p q = rw (trim_left_plain type (b' ' ∷ (name ++ b' ' ∷ [])) p) (
      rw (← append_assoc type (b' ' ∷ name) (b' ' ∷ [])) (
        trim_right_space (type ++ b' ' ∷ name)
          (ends-append type (b' ' ∷ name) (ends-append (b' ' ∷ []) name (plain_ends name q)))))
  line type name (x ∷ m) p q =
      let args : Text = join b' ' (map (format_arg ext) (x ∷ m)) in
      let rest : Text = name ++ b' ' ∷ args in
      rw (trim_left_plain type (b' ' ∷ rest) p) (
        trim_right_well (type ++ b' ' ∷ rest) (
          ends-append type (b' ' ∷ rest) (
            ends-append (b' ' ∷ name) (b' ' ∷ args)
              (ends-append (b' ' ∷ []) args (join_ends x m)))))
      ∙ ap (λ (l : List Text). type ++ (b' ' ∷ (name ++ (b' ' ∷ join b' ' l))))
          (sym (written-arguments (x ∷ m)))

  marshal_agent-line :
      (r : ResourceAgent)
      → IsWritable r
      → marshal_agent ext r
        ≡ ok (
            join b' ' (
              map
                (written ext)
                (bare r.type ∷ bare r.name ∷ arguments (sort_attributes ext r.attributes))))
  unfolding marshal_agent
  marshal_agent-line r w =
      rw
        (
          plain_ne_empty r.type w.plain_type,
          plain_ne_empty r.name w.plain_name,
          ← map-sort_attributes ext r.attributes,
        )
        (ap ok (line r.type r.name (sort_attributes ext r.attributes) w.plain_type w.plain_name))

  unmarshal_agent-line :
      (type name : Text) (m : Dict Text)
      → is_plain type ≡ true
      → is_plain name ≡ true
      → PlainKeys m
      → Distinct m
      → unmarshal_agent ext fresh_agent
          (join b' ' (map (written ext) (bare type ∷ bare name ∷ arguments m)))
        ≡ ok (record { type = type; name = name; attributes = m })
  unfolding unmarshal_agent
  unmarshal_agent-line type name m p q k d =
      rw (laws.split_written (bare type ∷ bare name ∷ arguments m) (p, (q, plain_arguments m k)))
        (rw (meant-arguments m) (rw (read_args_lem ext m [] k d)))

  -- What `MarshalText` writes for an agent whose type, name and attribute names are plain words
  -- (and differ), `UnmarshalText` reads back into a fresh agent with the same type and name and the
  -- same attributes, up to their order.
  pub unmarshal_agent-marshal_agent :
      (r : ResourceAgent)
      → IsWritable r
      → (text : Text) × (attributes : Dict Text) × (marshal_agent ext r ≡ ok text)
        × Perm attributes r.attributes
        × (unmarshal_agent ext fresh_agent text ≡ ok (record r { attributes = attributes }))
  unmarshal_agent-marshal_agent r w = (
    join b' ' (
        map (written ext)
          (bare r.type ∷ bare r.name ∷ arguments (sort_attributes ext r.attributes))),
    sort_attributes ext r.attributes,
    marshal_agent-line r w,
    sort_attributes-perm ext r.attributes,
    unmarshal_agent-line r.type r.name (sort_attributes ext r.attributes) w.plain_type w.plain_name
        (sort_attributes-PlainKeys ext r.attributes w.plain_keys)
        (sort_attributes-Distinct ext r.attributes w.distinct),
  )
