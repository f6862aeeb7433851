-- ===== src/Reactor/Files/Laws.antt =====
-- The configuration that `FindConfig` returns comes with the path of its file.
use linstor_gateway.Base.{
  false, ◌≡◌, refl, Option, none, some, List, [], ◌∷◌, arith, Bool-cases, inl, inr, ◌⊎◌,
}
use linstor_gateway.Base.Lists.{length, any}
use linstor_gateway.Base.Outcome.{Result, ok, err, panic}
use linstor_gateway.Base.Text.{Text, eq, eq_iff, scan}
use linstor_gateway.External.{External}
use linstor_gateway.Linstor.{ExternalFile}
use linstor_gateway.Reactor.Config.{PromoterConfig, decode_config}
use linstor_gateway.Reactor.Files.{
  filter_file, filter_configs, find_from, Found, prepend, gateway_config_prefix, Listing,
}

module _ (ext : External) where
  -- One of the files is at `path`, and its content is the one configuration `p`.
  abbrev pub HeldBy : PromoterConfig → Text → List ExternalFile → Type 0
  HeldBy p path [] = ⊥
  HeldBy p path (file ∷ files) =
      ((file.path ≡ path) × (decode_config ext file.content ≡ ok (p ∷ []))) ⊎ HeldBy p path files

  -- Every file of the gateway that can be decoded holds exactly one configuration.
  abbrev pub OnePromoter : List ExternalFile → Type 0
  OnePromoter [] = Unit
  OnePromoter (file ∷ files) =
      ((ps : List PromoterConfig) → decode_config ext file.content ≡ ok ps → length ps ≡ 1)
      × OnePromoter files

  -- What `FindConfig` may return for the files.
  abbrev pub Finds : Text → List ExternalFile → List PromoterConfig → Found → Type 0
  Finds id files configs (none, path) = any (λ p. eq p.id id) configs ≡ false
  Finds id files configs (some p, path) = (p.id ≡ id) × HeldBy p path files

  data Aligned (files : List ExternalFile) : List PromoterConfig → List Text → Type 0 where
    none_left : Aligned files [] []
    aligned :
        {p : PromoterConfig} {path : Text} {configs : List PromoterConfig} {paths : List Text}
        → HeldBy p path files
        → Aligned files configs paths
        → Aligned files (p ∷ configs) (path ∷ paths)

  Aligned-weaken :
      (file : ExternalFile) (files : List ExternalFile) {configs : List PromoterConfig}
      {paths : List Text}
      → Aligned files configs paths
      → Aligned (file ∷ files) configs paths
  Aligned-weaken file files none_left = none_left
  Aligned-weaken file files (aligned h a) = aligned (inr h) (Aligned-weaken file files a)

  Aligned-prepend :
      (file : ExternalFile) (files : List ExternalFile) (promoters : List PromoterConfig)
      (listed : Listing)
      → decode_config ext file.content ≡ ok promoters
      → length promoters ≡ 1
      → Aligned files listed.0 listed.1
      → Aligned
          (file ∷ files)
          (prepend promoters file.path listed).0
          (prepend promoters file.path listed).1
  unfolding prepend
  Aligned-prepend file files [] listed d h a = absurd (omega arith)
  Aligned-prepend file files (p ∷ []) listed d h a =
      aligned (inl (refl, d)) (Aligned-weaken file files a)
  Aligned-prepend file files (p ∷ q ∷ ps) listed d h a = absurd (omega arith)

  filter_file-eq-ok :
      (name : Option Text) (path : Text) (decoded : Result (List PromoterConfig))
      (rest : Result Listing) {listed : Listing}
      → filter_file name path decoded rest ≡ ok listed
      → (rest ≡ ok listed)
        ⊎ ((ps : List PromoterConfig) × (l : Listing) × (decoded ≡ ok ps)
            × (rest ≡ ok l)
            × (prepend ps path l ≡ listed))
  unfolding filter_file
  filter_file-eq-ok none path decoded rest h = inl h
  filter_file-eq-ok (some name) path (ok ps) (ok l) h = inr (ps, l, refl, refl, cc)
  filter_file-eq-ok (some name) path (ok ps) (err e) h = cc
  filter_file-eq-ok (some name) path (ok ps) panic h = cc
  filter_file-eq-ok (some name) path (err e) rest h = cc
  filter_file-eq-ok (some name) path panic rest h = cc

  filter_configs-Aligned :
      (files : List ExternalFile) (listed : Listing)
      → OnePromoter files
      → filter_configs ext files ≡ ok listed
      → Aligned files listed.0 listed.1
  unfolding filter_configs
  filter_configs-Aligned [] listed one h =
      let e : listed ≡ ([], []) = ground arith in rw e none_left
  filter_configs-Aligned (file ∷ files) listed one h =
      elim (filter_file-eq-ok (scan gateway_config_prefix file.path) file.path
        (decode_config ext file.content) (filter_configs ext files) {listed = listed} h) [
          | inl e ↦ Aligned-weaken file files (filter_configs-Aligned files listed one.1 e)
          | inr (ps, l, d, e, q) ↦ rw (← q) (
              Aligned-prepend file files ps l d (one.0 ps d)
                (filter_configs-Aligned files l one.1 e))
        ]

  Finds-skip :
      (id : Text) (files : List ExternalFile) (p : PromoterConfig) (configs : List PromoterConfig)
      (r : Found)
      → eq p.id id ≡ false
      → Finds id files configs r
      → Finds id files (p ∷ configs) r
  Finds-skip id files p configs (none, path) e k = rw e k
  Finds-skip id files p configs (some q, path) e k = k

  find_from-Finds :
      (id : Text) (files : List ExternalFile) {configs : List PromoterConfig} {paths : List Text}
      → Aligned files configs paths
      → (r : Found) × (find_from id configs paths ≡ ok r) × Finds id files configs r
  unfolding find_from
  find_from-Finds id files none_left = ((none, []), refl, refl)
  find_from-Finds id files (aligned {p} {path} {configs} {paths} h a) =
      elim (Bool-cases (eq p.id id)) [
        | inl e ↦ ((some p, path), rw e, ((eq_iff p.id id).0 e, h))
        | inr e ↦
            let (r, f, k) = find_from-Finds id files a in
            (r, rw e f, Finds-skip id files p configs r e k)
      ]

  -- If every file that can be decoded holds one configuration, then the search among the listed
  -- configurations returns: either none has the id, or the one that is returned has it, and stands
  -- alone in a file at the path that is returned with it.
  pub find_from-filter_configs :
      (id : Text) (files : List ExternalFile) (listed : Listing)
      → OnePromoter files
      → filter_configs ext files ≡ ok listed
      → (r : Found) × (find_from id listed.0 listed.1 ≡ ok r) × Finds id files listed.0 r
  find_from-filter_configs id files listed one h =
      find_from-Finds id files (filter_configs-Aligned files listed one h)
