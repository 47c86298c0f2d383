-- ===== src/Workspace/Scratch.antt =====
-- rust/src/workspace/mod.rs: burlmd's own files inside a bundle, and what a walk over it sees.
pub mod Laws
use burlmd.Prelude.{
  ℕ, ◌≡◌, refl, sym, ap, ◌∙◌, ◌≢◌, ◌↔◌, ◌⊎◌, inl, inr, Bool, true, false, not, ◌||◌, ◌&&◌, &&-true,
  ◌==◌, leb, Option, none, some, List, [], ◌∷◌, ◌++◌, append_assoc, any, all, if◌then◌else◌,
  Bool-cases, Option-cases, ◌>>=◌, >>=-eq-some, arith,
}
use burlmd.Prelude.Text.{
  Text, codes, text_eq, text_eq→eq, starts_with, ends_with, strip_prefix, strip_suffix,
}
use burlmd.Prelude.Affixes.{
  strip_prefix-eq-some, strip_prefix-append, strip_suffix-eq-some, strip_suffix-append,
  ends_with-append, starts_with-append,
}
use burlmd.Prelude.Split.{rsplit_once, rsplit_once-append, rsplit_once-eq-some, Free}
use burlmd.Okf.Links.{is_ascii_digit}

abbrev pub trash_prefix : Text
trash_prefix = codes ".burlmd-trash."

abbrev pub tmp : Text
tmp = codes ".tmp"

unfoldable pub is_ignored_scratch_name : Text → Bool
is_ignored_scratch_name name =
    starts_with trash_prefix name || (starts_with (b'.' ∷ []) name && ends_with tmp name)

unfoldable pub is_decimal : Text → Bool
is_decimal text = not (text_eq text []) && all is_ascii_digit text

-- From what stands between the leading dot and the suffix.
is_temporary : Text → Bool
is_temporary inside = elim (rsplit_once b'.' inside) [
  | none ↦ false
  | some (rest, counter) ↦ elim (rsplit_once b'.' rest) [
    | none ↦ false
    | some (stem, pid) ↦ not (text_eq stem []) && (is_decimal pid && is_decimal counter)
  ]
]

unfoldable pub is_burlmd_scratch_name : Text → Bool
unfolding is_temporary
is_burlmd_scratch_name name =
    if starts_with trash_prefix name
    then true
    else (elim (strip_prefix (b'.' ∷ []) name >>= strip_suffix tmp) [
      | none ↦ false
      | some inside ↦ is_temporary inside
    ])

-- What the file type says of an entry, the link itself and not its target.
pub record FileType : Type 0 where
  pub is_symlink : Bool
  pub is_dir : Bool

pub data BundleEntry : Type 0 where
  directory file symlink : BundleEntry

unfoldable pub classify_entry : FileType → BundleEntry
classify_entry t = if t.is_symlink then symlink else if t.is_dir then directory else file
