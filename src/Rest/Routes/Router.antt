-- ===== src/Rest/Routes/Router.antt =====
-- What the documentation of gorilla/mux says of its router: the routes are tested in the order in
-- which they were added, and the first that fits in path and method wins; a variable in braces
-- stands for a part of the path up to the next slash, one byte or more; a path must start with a
-- slash. In the templates here, a variable fills the whole of a part between slashes and has no
-- pattern of its own. A path with an empty part, `.` or `..` is answered with a redirect to the clean
-- path, and nothing is assumed of such a path.
use linstor_gateway.Base.{
  Bool, true, false, ◌&&◌, ◌||◌, ◌≡◌, Option, none, some, List, [], ◌∷◌, ◌++◌, ◌==◌, if◌then◌else◌,
}
use linstor_gateway.Base.Text.{Text, Dict, eq, is_empty, split, codes, has_prefix}
use linstor_gateway.Rest.Routes.{Route}
use linstor_gateway.Rest.Routes.Paths.{IsCleanPath}

abbrev onto_name : Text → Option Text → Option Text
onto_name first none = none
onto_name first (some s) = some (first ++ s)

up_to_brace : Text → Option Text
up_to_brace [] = none
up_to_brace (c ∷ []) = if c == b'}' then some [] else none
up_to_brace (c ∷ d ∷ s) = onto_name (c ∷ []) (up_to_brace (d ∷ s))

-- The name of the variable, if a part of a template is one.
unfoldable pub variable_name : Text → Option Text
unfolding up_to_brace
variable_name [] = none
variable_name (c ∷ s) = if c == b'{' then up_to_brace s else none

abbrev with_variable : Option Text → Text → Text → Option (Dict Text) → Option (Dict Text)
with_variable none t p rest = if eq t p then rest else none
with_variable (some name) t p none = none
with_variable (some name) t p (some vars) = if is_empty p then none else some ((name, p) ∷ vars)

-- The variables of a template in a path, both as their parts between slashes.
unfoldable pub fit : List Text → List Text → Option (Dict Text)
unfolding variable_name eq
fit [] [] = some []
fit (t ∷ ts) (p ∷ ps) = with_variable (variable_name t) t p (fit ts ps)
fit _ _ = none

module _ {H : Type 0} where
  abbrev chosen : Bool → Option (Dict Text) → H → Option (H × Dict Text) → Option (H × Dict Text)
  chosen true (some vars) handler rest = some (handler, vars)
  chosen true none handler rest = rest
  chosen false vars handler rest = rest

  unfoldable pub first_fit : List (Route H) → Text → List Text → Option (H × Dict Text)
  unfolding fit split eq has_prefix
  first_fit [] method parts = none
  first_fit (r ∷ table) method parts =
      chosen (eq r.method method && (is_empty r.path || has_prefix r.path (codes "/")))
        (fit (split b'/' (r.prefix ++ r.path)) parts) r.handler (first_fit table method parts)

  -- The router behaves as documented on a table, for the paths that it does not clean, which it
  -- would answer with a redirect. No template in the table has a variable with a pattern of its own.
  abbrev pub IsRouter :
      List (Route H) → (List (Route H) → Text → Text → Option (H × Dict Text)) → Type 0
  IsRouter table mux =
      (method path : Text)
      → IsCleanPath path
      → mux table method path ≡ first_fit table method (split b'/' path)
