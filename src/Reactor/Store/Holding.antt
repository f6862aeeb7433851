-- ===== src/Reactor/Store/Holding.antt =====
-- The files that hold the configurations, and what storing and removing a file does to them.
use linstor_gateway.Base.{
  ℕ, ◌≡◌, refl, ap, false, Option, none, some, List, [], ◌∷◌, ◌++◌, arith, if◌then◌else◌,
  Bool-cases, inl, inr,
}
use linstor_gateway.Base.Lists.{length, length-append}
use linstor_gateway.Base.Outcome.{ok}
use linstor_gateway.Base.Text.{Text, codes, eq, eq_iff, eq_refl, scan}
use linstor_gateway.External.{External}
use linstor_gateway.Linstor.{ExternalFile}
use linstor_gateway.Reactor.Config.{PromoterConfig, decode_config}
use linstor_gateway.Reactor.Files.{
  Found, Listing, gateway_config_prefix, config_path, prepend, filter_file, filter_configs,
  find_from,
}

-- What LINSTOR does with its external files: a file is stored in place of one with its path.
abbrev pub put : ExternalFile → List ExternalFile → List ExternalFile
put file [] = file ∷ []
put file (f ∷ fs) = let rest = put file fs in if eq f.path file.path then file ∷ fs else f ∷ rest

abbrev pub remove : Text → List ExternalFile → List ExternalFile
remove path [] = []
remove path (f ∷ fs) = let rest = remove path fs in if eq f.path path then rest else f ∷ rest

-- The abstract state: for each file its configuration, or none for a file that is not the gateway's.
abbrev pub Entries : Type 0
Entries = List (Option PromoterConfig)

abbrev pub find_entry : Text → Entries → Found
find_entry id [] = (none, [])
find_entry id (none ∷ es) = find_entry id es
find_entry id (some c ∷ es) =
    let rest = find_entry id es in if eq c.id id then (some c, config_path c.id) else rest

abbrev pub put_entry : PromoterConfig → Entries → Entries
put_entry c [] = some c ∷ []
put_entry c (none ∷ es) = none ∷ put_entry c es
put_entry c (some d ∷ es) =
    let rest = put_entry c es in if eq d.id c.id then some c ∷ es else some d ∷ rest

abbrev pub remove_entry : Text → Entries → Entries
remove_entry id [] = []
remove_entry id (none ∷ es) = none ∷ remove_entry id es
remove_entry id (some d ∷ es) =
    let rest = remove_entry id es in if eq d.id id then rest else some d ∷ rest

pub find-put_entry :
    (id : Text) (c : PromoterConfig) (es : Entries)
    → find_entry id (put_entry c es)
      ≡ (if eq c.id id then (some c, config_path c.id) else find_entry id es)
find-put_entry id c [] = refl
find-put_entry id c (none ∷ es) = find-put_entry id c es
find-put_entry id c (some d ∷ es) =
    ground (arith, find-put_entry id c es, eq_iff d.id c.id, eq_iff d.id id, eq_iff c.id id)

pub find-remove_entry :
    (id other : Text) (es : Entries)
    → find_entry id (remove_entry other es) ≡ (if eq other id then (none, []) else find_entry id es)
find-remove_entry id other [] = ground arith
find-remove_entry id other (none ∷ es) = find-remove_entry id other es
find-remove_entry id other (some d ∷ es) =
    ground
      (arith, find-remove_entry id other es, eq_iff d.id other, eq_iff d.id id, eq_iff other id)

longer : (s t : Text) (c : ℕ) → eq s (c ∷ (t ++ s)) ≡ false
longer s t c = elim (Bool-cases (eq s (c ∷ (t ++ s)))) [
  | inl e ↦
      let q = ap length ((eq_iff s (c ∷ (t ++ s))).0 e) in
      absurd (omega (arith, q, length-append t s))
  | inr e ↦ e
]

shorter : (s t : Text) (c : ℕ) → eq (c ∷ (t ++ s)) s ≡ false
shorter s t c = elim (Bool-cases (eq (c ∷ (t ++ s)) s)) [
  | inl e ↦
      let q = ap length ((eq_iff (c ∷ (t ++ s)) s).0 e) in
      absurd (omega (arith, q, length-append t s))
  | inr e ↦ e
]

eq-append : (a b s : Text) → eq (a ++ s) (b ++ s) ≡ eq a b
unfolding eq
eq-append [] [] s = eq_refl s
eq-append [] (c ∷ b) s = longer s b c
eq-append (c ∷ a) [] s = shorter s a c
eq-append (c ∷ a) (d ∷ b) s = rw (eq-append a b s) refl

eq-config_path : (a b : Text) → eq (config_path a) (config_path b) ≡ eq a b
unfolding config_path eq
eq-config_path a b = eq-append a b (codes ".toml")

module _ (ext : External) where
  -- The file holds the configuration alone, under the path of its identifier.
  pub record IsFileOf (f : ExternalFile) (c : PromoterConfig) : Type 0 where
    pub name : Text
    pub path : f.path ≡ config_path c.id
    pub scanned : scan gateway_config_prefix f.path ≡ some name
    pub decoded : decode_config ext f.content ≡ ok (c ∷ [])

  -- The files hold the configurations; the others are not those of the gateway.
  abbrev pub Holds : List ExternalFile → Entries → Type 0
  Holds [] [] = Unit
  Holds (f ∷ fs) (none ∷ es) = (scan gateway_config_prefix f.path ≡ none) × Holds fs es
  Holds (f ∷ fs) (some c ∷ es) = IsFileOf f c × Holds fs es
  Holds _ _ = ⊥

  pub find_from-filter_configs-Holds :
      (fs : List ExternalFile) (es : Entries)
      → Holds fs es
      → (listed : Listing) × (filter_configs ext fs ≡ ok listed)
        × ((id : Text) → find_from id listed.0 listed.1 ≡ ok (find_entry id es))
  unfolding filter_configs filter_file prepend find_from
  find_from-filter_configs-Holds [] [] h = (_, refl, λ id. refl)
  find_from-filter_configs-Holds (f ∷ fs) (none ∷ es) h =
      let (listed, e, found) = find_from-filter_configs-Holds fs es h.1 in (listed, rw h.0 e, found)
  find_from-filter_configs-Holds (f ∷ fs) (some c ∷ es) h =
      let (listed, e, found) = find_from-filter_configs-Holds fs es h.1 in
      (
        (c ∷ listed.0, f.path ∷ listed.1),
        rw (h.0.scanned, h.0.decoded, e) refl,
        λ id. rw (h.0.path, found id) (ground arith),
      )
  find_from-filter_configs-Holds [] (e ∷ es) h = elim h [ ]
  find_from-filter_configs-Holds (f ∷ fs) [] h = elim h [ ]

  other_scan :
      (f g : ExternalFile) (name : Text)
      → scan gateway_config_prefix f.path ≡ none
      → scan gateway_config_prefix g.path ≡ some name
      → eq f.path g.path ≡ false
  other_scan f g name a b = elim (Bool-cases (eq f.path g.path)) [
    | inl e ↦ let q = ap (scan gateway_config_prefix) ((eq_iff f.path g.path).0 e) in absurd (cc)
    | inr e ↦ e
  ]

  pub put-Holds :
      (file : ExternalFile) (c : PromoterConfig) (fs : List ExternalFile) (es : Entries)
      → IsFileOf file c
      → Holds fs es
      → Holds (put file fs) (put_entry c es)
  put-Holds file c [] [] o h = (o, tt)
  put-Holds file c (f ∷ fs) (none ∷ es) o h =
      rw (other_scan f file o.name h.0 o.scanned) (h.0, put-Holds file c fs es o h.1)
  put-Holds file c (f ∷ fs) (some d ∷ es) o h =
      let e : eq f.path file.path ≡ eq d.id c.id =
        rw (h.0.path, o.path) (eq-config_path d.id c.id) in
      let more = put-Holds file c fs es o h.1 in
      elim (Bool-cases (eq d.id c.id)) [
        | inl y ↦ rw (e, y) (o, h.1)
        | inr n ↦ rw (e, n) (h.0, more)
      ]
  put-Holds file c [] (e ∷ es) o h = elim h [ ]
  put-Holds file c (f ∷ fs) [] o h = elim h [ ]

  pub remove-Holds :
      (id name : Text) (fs : List ExternalFile) (es : Entries)
      → scan gateway_config_prefix (config_path id) ≡ some name
      → Holds fs es
      → Holds (remove (config_path id) fs) (remove_entry id es)
  remove-Holds id name [] [] s h = tt
  remove-Holds id name (f ∷ fs) (none ∷ es) s h =
      let g : ExternalFile = record { path = config_path id; content = [] } in
      rw (other_scan f g name h.0 s) (h.0, remove-Holds id name fs es s h.1)
  remove-Holds id name (f ∷ fs) (some d ∷ es) s h =
      let e : eq f.path (config_path id) ≡ eq d.id id = rw h.0.path (eq-config_path d.id id) in
      let more = remove-Holds id name fs es s h.1 in
      elim (Bool-cases (eq d.id id)) [ inl y ↦ rw (e, y) more | inr n ↦ rw (e, n) (h.0, more) ]
  remove-Holds id name [] (e ∷ es) s h = elim h [ ]
  remove-Holds id name (f ∷ fs) [] s h = elim h [ ]
