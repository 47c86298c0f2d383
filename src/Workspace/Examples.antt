-- ===== src/Workspace/Examples.antt =====
-- The model of rust/src/workspace run on examples.
use burlmd.Prelude.{
  ℕ, ◌+◌, ◌≡◌, refl, ◌↔◌, inl, inr, true, false, none, some, [], ◌∷◌, ◌++◌, if◌then◌else◌,
  Bool-cases,
}
use burlmd.Prelude.Text.{Text, codes, text_eq, text_eq→eq, strip_prefix, strip_suffix, starts_with}
use burlmd.Prelude.Split.{split, rsplit_once}
use burlmd.Error.{auth_expired, ok}
use burlmd.Okf.ConceptId.{slash, concept_id_to_path, path_to_concept_id, is_reserved_title}
use burlmd.Okf.Links.{classify, internal, non_empty}
use burlmd.Workspace.Names.{
  trim_matches, components, join_id, directory_ancestors, LinkTargetIdentity, validate_segment,
  validate_title, normalize_directory, link_target_identity,
}
use burlmd.Workspace.Names.Identity.{IsIdentity, join_id-identity, link_target_identity_iff}
use burlmd.Workspace.Scratch.{is_decimal, is_burlmd_scratch_name}
use burlmd.Workspace.Title.{
  is_control, hex, hex_digit, is_plain_char, is_plain, yaml_scalar, starts_alphabetic, escape_all,
  escape,
}
use burlmd.Workspace.Title.Laws.{Reader, yaml_scalar-scan, contains-yaml_scalar}
use burlmd.Prelude.{zero, suc, ◌*◌, ◌-◌, ◌/◌, ◌%◌, ◌<◌, ltb, ◌==◌, ap, ◌⊎◌, arith, all}
use burlmd.Okf.Links.{backslash}
use burlmd.Prelude.Text.{contains, ends_with}
use burlmd.Workspace.Journal.{
  Disk, under, write, Journal, removed, overwrite, rename, trash, trash_path, undo_all, discard_all,
  discard_trash, rollback, rolled_back, commit,
}
use burlmd.Workspace.Journal.Moves.{IsFree}
use burlmd.Workspace.Journal.Rollback.{Journaled, rollback_restores, rolled_back_unchanged}
use burlmd.Workspace.Journal.Commit.{without_trash, commit_clears}

abbrev debug : Text → Text
debug t = b'"' ∷ (t ++ b'"' ∷ [])

normalized : normalize_directory debug (codes "/notes/daily/") ≡ ok (codes "notes/daily")
unfolding normalize_directory trim_matches text_eq components split non_empty starts_with
normalized = refl

valid : validate_title debug (codes "Day 1") ≡ ok tt
unfolding validate_title validate_segment starts_with is_reserved_title path_to_concept_id
    strip_prefix strip_suffix text_eq
valid = refl

join_id-identity_example :
    (link_target_identity debug (join_id (codes "notes/daily") (codes "Day 1"))
      ≡ ok (record {
        target_id = join_id (codes "notes/daily") (codes "Day 1");
        directory_path = codes "notes/daily";
        title = codes "Day 1";
      }))
    × (classify
          (slash ∷ concept_id_to_path (join_id (codes "notes/daily") (codes "Day 1")))
          (codes "archive")
        ≡ internal (join_id (codes "notes/daily") (codes "Day 1")))
join_id-identity_example =
    join_id-identity debug (codes "/notes/daily/") (codes "Day 1") (codes "archive")
      {d = codes "notes/daily"} normalized valid

abbrev identity : LinkTargetIdentity
identity = record { target_id = codes "notes/a"; directory_path = codes "notes"; title = codes "a" }

link_target_identity_iff_example :
    (link_target_identity debug (codes "notes/a") ≡ ok identity)
    ↔ IsIdentity debug (codes "notes/a") identity
link_target_identity_iff_example = link_target_identity_iff debug (codes "notes/a") identity

ancestors : directory_ancestors (codes "a/b") ≡ codes "a" ∷ codes "a/b" ∷ []
unfolding directory_ancestors join_id split non_empty text_eq
ancestors = refl

scratch : is_burlmd_scratch_name (codes ".a.md.12.3.tmp") ≡ true
unfolding is_burlmd_scratch_name starts_with strip_prefix strip_suffix rsplit_once is_decimal
    text_eq
scratch = refl

foreign : is_burlmd_scratch_name (codes ".vim.tmp") ≡ false
unfolding is_burlmd_scratch_name starts_with strip_prefix strip_suffix rsplit_once is_decimal
    text_eq
foreign = refl

-- A bundle of one file, which is written and then renamed.
abbrev before : Disk
before = λ p. if text_eq p (codes "/b/a.md") then some (codes "old") else none

abbrev opened : Journal
opened = record { steps = []; disk = before }

abbrev edited : Journal
edited = (overwrite none none (codes "/b/a.md") (codes "new") opened).1

abbrev renamed : Journal
renamed = (rename none none (codes "/b/a.md") (codes "/b/c.md") edited).1

edited_IsFree : IsFree (codes "/b/c.md") edited.disk
unfolding overwrite write text_eq under strip_prefix starts_with
edited_IsFree p h = elim (Bool-cases (text_eq p (codes "/b/a.md"))) [
  | inl e ↦ cc (rw (text_eq→eq p (codes "/b/a.md") e) at h)
  | inr e ↦ rw e
]

renamed_Journaled : Journaled before renamed
renamed_Journaled =
    Journaled.relocated edited renamed none none (codes "/b/a.md") (codes "/b/c.md")
      (Journaled.overwritten opened edited none none (codes "/b/a.md") (codes "new")
        (Journaled.opened opened refl) refl)
      edited_IsFree refl

abbrev digit : ℕ → Text
digit n = (48 + n) ∷ []

silent : (rollback digit (λ n. none) renamed).0 ≡ none
unfolding rollback undo_all rename overwrite trash_path rsplit_once
silent = refl

rollback_restores_example :
    (rollback digit (λ n. none) renamed).1 ≡ record { steps = []; disk = before }
rollback_restores_example =
    rollback_restores digit (λ n. none) before renamed renamed_Journaled silent

unchanged : (rolled_back digit (λ n. none) auth_expired renamed).0 ≡ auth_expired
unfolding rolled_back rollback undo_all rename overwrite rsplit_once
unchanged = refl

rolled_back_unchanged_example :
    (rolled_back digit (λ n. none) auth_expired renamed).1 ≡ record { steps = []; disk = before }
rolled_back_unchanged_example =
    rolled_back_unchanged digit (λ n. none) before auth_expired renamed renamed_Journaled refl
      unchanged

abbrev deleted : Journal
deleted = (trash true none (codes "7") (codes "0") (codes "/b/a.md") opened).1

commit_clears_example :
    (commit digit (λ e. []) (λ n. removed) deleted).1
    ≡ record { steps = []; disk = without_trash deleted.steps deleted.disk }
unfolding commit discard_all discard_trash trash trash_path rsplit_once
commit_clears_example =
    commit_clears digit (λ e. []) (λ n. removed) deleted
      (commit digit (λ e. []) (λ n. removed) deleted).1 refl

-- A reader of double-quoted scalars: in plain text, after a backslash, or with so many hexadecimal
-- digits to come after the next one.
data Scanning : Type 0 where
  plain escaped : Scanning
  digits : ℕ → ℕ → Scanning

abbrev unhex : ℕ → ℕ
unhex h = if ltb h 58 then h - 48 else h - 55

abbrev meant : ℕ → ℕ
meant c = if c == b'n' then 10 else if c == b'r' then 13 else if c == b't' then 9 else c

abbrev cons : ℕ → Text × Text → Text × Text
cons c x = (c ∷ x.0, x.1)

scan : Scanning → Text → Text × Text
scan state [] = ([], [])
scan plain (c ∷ s) =
    let after = scan escaped s in
    let next = scan plain s in
    if c == b'"' then ([], s) else if c == backslash then after else cons c next
scan escaped (c ∷ s) =
    let number = scan (digits 3 0) s in
    let next = scan plain s in if c == b'u' then number else cons (meant c) next
scan (digits zero n) (c ∷ s) = cons (n * 16 + unhex c) (scan plain s)
scan (digits (suc k) n) (c ∷ s) = scan (digits k (n * 16 + unhex c)) s

unhex-hex_digit : (d : ℕ) → d < 16 → unhex (hex_digit d) ≡ d
unhex-hex_digit d h = ground arith

number :
    (c : ℕ)
    → is_control c ≡ true
    → (((0 * 16 + unhex (hex_digit (c / 4096 % 16))) * 16 + unhex (hex_digit (c / 256 % 16))) * 16
            + unhex (hex_digit (c / 16 % 16)))
          * 16
        + unhex (hex_digit (c % 16))
      ≡ c
unfolding is_control
number c h =
    let low : c < 160 = ground arith in
    rw
      (
        unhex-hex_digit (c / 4096 % 16) (omega arith),
        unhex-hex_digit (c / 256 % 16) (omega arith),
        unhex-hex_digit (c / 16 % 16) (omega arith),
        unhex-hex_digit (c % 16) (omega arith),
      )
      (omega arith)

reader : Reader
unfolding scan hex
reader = record {
  scan = scan plain;
  closing = λ s. refl;
  quote = λ s. refl;
  backslashes = λ s. refl;
  feed = λ s. refl;
  return = λ s. refl;
  tab = λ s. refl;
  unicode = λ c s h. ap (λ n. cons n (scan plain s)) (number c h);
  plain = λ c s q b e. rw (q, b);
}

written : yaml_scalar (λ c. false) (codes "no") ≡ codes "\"no\""
unfolding yaml_scalar is_plain is_plain_char starts_alphabetic escape_all escape is_control
    ends_with text_eq starts_with
written = refl

yaml_scalar-scan_example :
    ((yaml_scalar (λ c. false) (codes "a: b") ≡ codes "a: b")
      × (starts_alphabetic (codes "a: b") ≡ true)
      × (all (is_plain_char (λ c. false)) (codes "a: b") ≡ true))
    ⊎ ((inside : Text) × (yaml_scalar (λ c. false) (codes "a: b") ≡ b'"' ∷ (inside ++ b'"' ∷ []))
        × (reader.scan (inside ++ b'"' ∷ codes "x") ≡ (codes "a: b", codes "x")))
yaml_scalar-scan_example = yaml_scalar-scan reader (λ c. false) (codes "a: b") (codes "x")

contains-yaml_scalar_example :
    contains 10 (yaml_scalar (λ c. false) (b'a' ∷ 10 ∷ codes "---")) ≡ false
contains-yaml_scalar_example =
    contains-yaml_scalar (λ c. false) 10 (b'a' ∷ 10 ∷ codes "---") (omega arith) refl
