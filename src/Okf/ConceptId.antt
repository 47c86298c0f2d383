-- ===== src/Okf/ConceptId.antt =====
-- rust/src/okf/concept_id.rs: a Note's path and its concept id, and the reserved titles.
pub mod Laws
use burlmd.Prelude.{unwrap_or, ℕ, Bool, Option, none, some, List, [], ◌∷◌, ◌++◌, any}
use burlmd.Prelude.Text.{Text, codes, text_eq, strip_prefix, strip_suffix}

abbrev pub slash : ℕ
slash = b'/'

abbrev pub md : Text
md = codes ".md"

abbrev pub reserved_titles : List Text
reserved_titles = codes "index" ∷ codes "log" ∷ []

without_slash : Text → Text
without_slash path = unwrap_or (strip_prefix (slash ∷ []) path) path

unfoldable pub path_to_concept_id : Text → Text
unfolding without_slash
path_to_concept_id path = let path' = without_slash path in unwrap_or (strip_suffix md path') path'

unfoldable pub concept_id_to_path : Text → Text
concept_id_to_path concept_id = concept_id ++ md

unfoldable pub is_reserved_title : Text → Bool
is_reserved_title title = any (λ t. text_eq t (path_to_concept_id title)) reserved_titles
