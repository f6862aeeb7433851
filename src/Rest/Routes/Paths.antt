-- ===== src/Rest/Routes/Paths.antt =====
-- The parts between slashes of the paths that the REST client asks for.
use linstor_gateway.Base.{◌≡◌, refl, Bool, true, false, not, ◌&&◌, List, [], ◌∷◌, ◌++◌, ◌==◌}
use linstor_gateway.Base.Lists.{all}
use linstor_gateway.Base.Text.{Text, codes, has_byte, split, split_whole, split-append}

-- The text is not empty, and neither `.` nor `..`.
abbrev pub is_clean : Text → Bool
is_clean [] = false
is_clean (c ∷ []) = not (c == b'.')
is_clean (c ∷ d ∷ []) = not (c == b'.' && d == b'.')
is_clean (_ ∷ _ ∷ _ ∷ _) = true

-- The text can be a part of a path: it is not empty, is neither `.` nor `..`, and holds no slash.
abbrev pub IsPart : Text → Type 0
IsPart s = (is_clean s ≡ true) × (has_byte b'/' s ≡ false)

-- The path starts with a slash, and no part of it is empty, `.` or `..`, so that neither path.Clean
-- nor the resolution of a relative reference changes it.
abbrev pub IsCleanPath : Text → Type 0
IsCleanPath path =
    (parts : List Text) × (split b'/' path ≡ [] ∷ parts) × (all is_clean parts ≡ true)

abbrev pub parts_under : Text → List Text → List Text
parts_under kind parts = [] ∷ codes "api" ∷ codes "v2" ∷ kind ∷ parts

pub split_kind :
    (kind : Text)
    → has_byte b'/' kind ≡ false
    → split b'/' (codes "/api/v2/" ++ kind) ≡ parts_under kind []
unfolding split
split_kind kind k = rw (split_whole b'/' kind k) refl

pub split_target :
    (kind s : Text)
    → has_byte b'/' kind ≡ false
    → has_byte b'/' s ≡ false
    → split b'/' (codes "/api/v2/" ++ (kind ++ (b'/' ∷ s))) ≡ parts_under kind (s ∷ [])
unfolding split
split_target kind s k h = rw (split-append b'/' kind s k, split_whole b'/' s h) refl

pub split_below :
    (kind s t : Text)
    → has_byte b'/' kind ≡ false
    → has_byte b'/' s ≡ false
    → has_byte b'/' t ≡ false
    → split b'/' (codes "/api/v2/" ++ (kind ++ (b'/' ∷ (s ++ (b'/' ∷ t)))))
      ≡ parts_under kind (s ∷ t ∷ [])
unfolding split
split_below kind s t k h l =
    rw (split-append b'/' kind (s ++ (b'/' ∷ t)) k, split-append b'/' s t h, split_whole b'/' t l)
      refl

pub target_clean : (s : Text) → is_clean s ≡ true → all is_clean (s ∷ []) ≡ true
target_clean s e = rw e refl

pub below_clean :
    (s t : Text) → is_clean s ≡ true → is_clean t ≡ true → all is_clean (s ∷ t ∷ []) ≡ true
below_clean s t e f = rw (e, f) refl

pub target_path :
    (kind s : Text)
    → IsPart kind
    → IsPart s
    → IsCleanPath (codes "/api/v2/" ++ (kind ++ (b'/' ∷ s)))
target_path kind s (e, k) (f, h) = (_, split_target kind s k h, below_clean kind s e f)

pub below_path :
    (kind s t : Text)
    → IsPart kind
    → IsPart s
    → IsPart t
    → IsCleanPath (codes "/api/v2/" ++ (kind ++ (b'/' ∷ (s ++ (b'/' ∷ t)))))
below_path kind s t (e, k) (f, h) (g, l) =
    (_, split_below kind s t k h l, rw (e, below_clean s t f g) refl)
