-- ===== src/Workspace/Names.antt =====
-- rust/src/workspace/lifecycle.rs: the names of Notes and Directories, what is refused, and the
-- concept ids made of them. The names that Rust's `Debug` prints are a parameter, `debug`.
pub mod Trim
pub mod Laws
pub mod Identity
use mathlib.Core.List.{reverse}
use burlmd.Prelude.{
  ℕ, Bool, true, false, not, ◌||◌, ◌==◌, leb, ◌&&◌, Option, none, some, List, [], ◌∷◌, ◌++◌, any,
  all, map, if◌then◌else◌,
}
use burlmd.Prelude.Text.{Text, codes, text_eq, starts_with, contains}
use burlmd.Prelude.Split.{split, rsplit_once}
use burlmd.Error.{AppError, path_unavailable, Result, ok, err, ◌>>=◌}
use burlmd.Okf.ConceptId.{slash, is_reserved_title}
use burlmd.Okf.Links.{backslash, dot, dot_dot, non_empty}

-- `char::is_whitespace`: Unicode's White_Space property.
abbrev pub is_whitespace : ℕ → Bool
is_whitespace c =
    (leb 9 c && leb c 13)
    || (c == 32
        || (c == 133
            || (c == 160
                || (c == 5760
                    || ((leb 8192 c && leb c 8202)
                        || (c == 8232
                            || (c == 8233 || (c == 8239 || (c == 8287 || c == 12288)))))))))

-- `str::trim_matches` of one character.
trim_start : ℕ → Text → Text
trim_start c [] = []
trim_start c (a ∷ s) = if a == c then trim_start c s else a ∷ s

unfoldable pub trim_matches : ℕ → Text → Text
unfolding trim_start
trim_matches c s = reverse (trim_start c (reverse (trim_start c s)))

-- `Path::components` of a path that is not absolute: repeated separators and every `.` but a leading
-- one are passed over.
pub data Component : Type 0 where
  cur_dir parent_dir : Component
  normal : Text → Component

component : Text → Component
component w = if text_eq w dot_dot then parent_dir else normal w

later_components : List Text → List Component
unfolding component
later_components [] = []
later_components (w ∷ ws) =
    let rest = later_components ws in if text_eq w dot then rest else component w ∷ rest

components_of : List Text → List Component
unfolding later_components component
components_of [] = []
components_of (w ∷ ws) =
    if text_eq w dot then cur_dir ∷ later_components ws else component w ∷ later_components ws

unfoldable pub components : Text → List Component
unfolding components_of
components path = components_of (non_empty (split slash path))

abbrev pub is_normal : Component → Bool
is_normal (normal _) = true
is_normal other = false

unfoldable pub containing_dir : Text → Text
containing_dir concept_id = elim (rsplit_once slash concept_id) [ none ↦ [] | some (dir, _) ↦ dir ]

unfoldable pub file_stem : Text → Text
file_stem concept_id = elim (rsplit_once slash concept_id) [
  | none ↦ concept_id
  | some (_, name) ↦ name
]

unfoldable pub join_id : Text → Text → Text
join_id directory name = if text_eq directory [] then name else directory ++ slash ∷ name

ancestors_from : Text → List Text → List Text
unfolding join_id
ancestors_from ancestor [] = []
ancestors_from ancestor (segment ∷ rest) =
    let here = join_id ancestor segment in here ∷ ancestors_from here rest

unfoldable pub directory_ancestors : Text → List Text
unfolding ancestors_from
directory_ancestors directory = ancestors_from [] (non_empty (split slash directory))

pub record LinkTargetIdentity : Type 0 where
  pub target_id : Text
  pub directory_path : Text
  pub title : Text

module _ (debug : Text → Text) where
  unfoldable pub validate_segment : Text → Result (Unit {0})
  validate_segment segment =
      if all is_whitespace segment
      then err (path_unavailable (codes "a Note or Directory name cannot be empty"))
      else if starts_with dot segment
      then err (
          path_unavailable (
            segment
            ++ codes
                " derives a dot-prefixed filename, which the indexer skips, so the Note would vanish from the Workspace while its file stayed on disk"))
      else if contains slash segment || (contains backslash segment || contains 0 segment)
      then err (
          path_unavailable (
            segment
            ++ codes
                " contains a character no filename can carry, and the derivation is verbatim rather than slugifying (data-models/okf-bundle.md)"))
      else if contains 10 segment || contains 13 segment
      then err (
          path_unavailable (
            debug segment
            ++ codes
                " contains a line terminator, which no Link to this Note could carry: the destination form is angle-bracketed and CommonMark forbids a line ending inside one, so every inbound Link would silently stop being a Link"))
      else ok tt

  unfoldable pub validate_title : Text → Result (Unit {0})
  validate_title title = validate_segment title >>= λ _.
      if is_reserved_title title
      then err (
          path_unavailable (
            title
            ++ codes " derives to a reserved OKF filename (OKF §3.1 reserves index.md and log.md)"))
      else ok tt

  -- From the trimmed path on.
  normalize_trimmed : Text → Text → Result Text
  normalize_trimmed path trimmed =
      if text_eq trimmed []
      then ok []
      else if any (λ w. text_eq w []) (split slash trimmed)
      then err (
          path_unavailable (
            path
            ++ codes
                " has an empty path segment, so it names one Directory on disk and a different concept id in the index"))
      else if any (λ c. not (is_normal c)) (components trimmed)
      then err (path_unavailable (path ++ codes " does not name a Directory inside the Workspace"))
      else if any (starts_with dot) (split slash trimmed)
      then err (
          path_unavailable (
            path
            ++ codes
                " names a dot-prefixed Directory, which the indexer skips, so it would vanish from the Workspace while its contents stayed on disk"))
      else ok trimmed

  unfoldable pub normalize_directory : Text → Result Text
  unfolding normalize_trimmed
  normalize_directory path =
      if contains backslash path
      then err (
          path_unavailable (
            path
            ++ codes
                " does not name a Directory inside the Workspace: a Directory path is `/`-separated and a backslash is a character no segment may carry"))
      else if contains 0 path
      then err (
          path_unavailable
            (debug path ++ codes " contains a NUL, which no path on this system can carry"))
      else if contains 10 path || contains 13 path
      then err (
          path_unavailable (
            debug path
            ++ codes
                " contains a line terminator, which no Link to a Note beneath it could carry: the destination form is angle-bracketed and CommonMark forbids a line ending inside one"))
      else normalize_trimmed path (trim_matches slash path)

  unfoldable pub validate_persisted_directory_id : Text → Result (Unit {0})
  validate_persisted_directory_id path =
      if text_eq path []
      then err (path_unavailable (codes "a persisted Directory identity cannot be empty"))
      else (normalize_directory path >>= λ normalized.
          if not (text_eq normalized path)
          then err (
              path_unavailable
                (path ++ codes " is not an exact bundle-relative Directory identity"))
          else ok tt)

  unfoldable pub link_target_identity : Text → Result LinkTargetIdentity
  link_target_identity target_id = elim (rsplit_once slash target_id) [
    | none ↦ validate_title target_id >>= λ _.
        ok (record { target_id = target_id; directory_path = []; title = target_id })
    | some (directory, title) ↦ normalize_directory directory >>= λ directory_path.
        validate_title title >>= λ _.
        if not (text_eq (join_id directory_path title) target_id)
        then err (
            path_unavailable
              (target_id ++ codes " is not an exact, bundle-relative Link target id"))
        else ok (record { target_id = target_id; directory_path = directory_path; title = title })
  ]

  unfoldable pub prospective_link_target_identity : Text → Text → Result LinkTargetIdentity
  prospective_link_target_identity current_directory title =
      validate_title title >>= λ _. link_target_identity (join_id current_directory title)
