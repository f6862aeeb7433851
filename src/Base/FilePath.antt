-- ===== src/Base/FilePath.antt =====
-- `path/filepath`: `Clean` and `Join`, on the components of a path.
pub mod Laws
use linstor_gateway.Base.{Bool, false, ◌||◌, List, [], ◌∷◌, if◌then◌else◌}
use linstor_gateway.Base.Text.{Text, codes, eq, split, join, is_empty}

-- One component onto those kept so far, the last one first. The flag says that the path is rooted,
-- where `..` at the root is dropped.
unfoldable pub push_dotdot : Bool → List Text → List Text
push_dotdot rooted [] = if rooted then [] else codes ".." ∷ []
push_dotdot rooted (w ∷ ws) = if eq w (codes "..") then codes ".." ∷ (w ∷ ws) else ws

unfoldable pub push_component : Bool → List Text → Text → List Text
unfolding push_dotdot
push_component rooted kept w =
    if is_empty w || eq w (codes ".")
    then kept
    else if eq w (codes "..")
    then push_dotdot rooted kept
    else w ∷ kept

unfoldable pub components_onto : Bool → List Text → List Text → List Text
components_onto rooted kept [] = kept
components_onto rooted kept (w ∷ ws) = components_onto rooted (push_component rooted kept w) ws

unfoldable pub reverse_onto : List Text → List Text → List Text
reverse_onto out [] = out
reverse_onto out (w ∷ ws) = reverse_onto (w ∷ out) ws

abbrev pub is_rooted : Text → Bool
is_rooted [] = false
is_rooted (c ∷ s) = eq (c ∷ []) (codes "/")

abbrev dot_if_empty : Text → Text
dot_if_empty [] = codes "."
dot_if_empty (c ∷ s) = c ∷ s

-- `filepath.Clean(path)`
unfoldable pub clean : Text → Text
unfolding push_component components_onto reverse_onto
clean path =
    let rooted = is_rooted path in
    let cleaned = join b'/' (reverse_onto [] (components_onto rooted [] (split b'/' path))) in
    if rooted then b'/' ∷ cleaned else dot_if_empty cleaned

unfoldable pub non_empty : List Text → List Text
non_empty [] = []
non_empty (w ∷ ws) = let rest = non_empty ws in if is_empty w then rest else w ∷ rest

abbrev pub clean_joined : List Text → Text
clean_joined [] = []
clean_joined (w ∷ ws) = clean (join b'/' (w ∷ ws))

-- `filepath.Join(elem...)`
unfoldable pub join_path : List Text → Text
unfolding non_empty
join_path elems = clean_joined (non_empty elems)
