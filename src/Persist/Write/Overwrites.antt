-- ===== src/Persist/Write/Overwrites.antt =====
-- What a write of tier 2 leaves of the file.
use burlmd.Prelude.{
  ◌≡◌, refl, sym, ◌⊎◌, inl, inr, Bool, true, false, not, ◌||◌, Option, none, some, Bool-cases,
  if◌then◌else◌,
}
use burlmd.Prelude.Text.{Text, text_eq, text_eq→eq}
use burlmd.Error.{Result, ok, err, >>=-eq-ok}
use burlmd.Persist.{Bytes, utf8_bytes, Core}
use burlmd.Persist.Write.{WriteAnswers, Covering, first_failure, read_file, on_disk, publish}

module _ (core : Core) (note_id : Text) where
  -- A write that went through: the file had the baseline's hash, the new baseline is the hash of the
  -- source, and the file has the source or had its hash before.
  pub record Published (c : Covering) (awaiting : Bool) (read : Option Text) (file : Option Bytes)
      (revision : Text) (file' : Option Bytes) : Type 0 where
    pub found : Bytes
    pub looked : on_disk core note_id awaiting (read_file core note_id read file) ≡ ok found
    pub baseline : core.content_hash found ≡ c.revision
    pub rebased : revision ≡ core.content_hash (utf8_bytes c.source)
    pub wrote :
        (file' ≡ some (utf8_bytes c.source))
        ⊎ ((file' ≡ file)
            × (awaiting ≡ false)
            × (core.content_hash found ≡ core.content_hash (utf8_bytes c.source)))

  pub publish-Published :
      (a : WriteAnswers) (c : Covering) (awaiting : Bool) (file : Option Bytes) {revision : Text}
      {file' : Option Bytes}
      → publish core note_id a c awaiting file ≡ ok (revision, file')
      → Published c awaiting a.read file revision file'
  unfolding publish
  publish-Published a c awaiting file {revision} {file'} h =
      let (found, h1, looked) =
        >>=-eq-ok _ (on_disk core note_id awaiting (read_file core note_id a.read file)) h in
      elim (Bool-cases (text_eq (core.content_hash found) c.revision)) [
        | inr e ↦ cc (rw e at h1)
        | inl e ↦
            let (rebased, wrote) =
              outcome (text_eq (core.content_hash (utf8_bytes c.source)) (core.content_hash found))
                awaiting (first_failure (if awaiting then a.create_directory else none) a.write)
                (core.content_hash (utf8_bytes c.source)) (some (utf8_bytes c.source))
                (rw e at h1) in
            record {
              found = found;
              looked = looked;
              baseline = text_eq→eq _ _ e;
              rebased = rebased;
              wrote = by_hash wrote;
            }
      ]
    where
      -- By whether the hash is the same, whether a file is owed, and how the file system answers.
      written :
          (same owed : Bool) (answer : Result {0} Unit) (hash : Text) (bytes : Option Bytes)
          → Result (Text × Option Bytes)
      written same owed answer hash bytes =
          if not same || owed
          then (elim answer [ ok _ ↦ ok (hash, bytes) | err e ↦ err e ])
          else ok (hash, file)

      outcome :
          (same owed : Bool) (answer : Result {0} Unit) (hash : Text) (bytes : Option Bytes)
          → written same owed answer hash bytes ≡ ok (revision, file')
          → (revision ≡ hash)
            × ((file' ≡ bytes) ⊎ ((file' ≡ file) × (owed ≡ false) × (same ≡ true)))
      outcome true false answer hash bytes h = (cc h, inr (cc h, refl, refl))
      outcome true true (ok u) hash bytes h = (cc h, inl (cc h))
      outcome true true (err e) hash bytes h = cc h
      outcome false true (ok u) hash bytes h = (cc h, inl (cc h))
      outcome false true (err e) hash bytes h = cc h
      outcome false false (ok u) hash bytes h = (cc h, inl (cc h))
      outcome false false (err e) hash bytes h = cc h

      by_hash :
          {found : Bytes}
          → ((file' ≡ some (utf8_bytes c.source))
              ⊎ ((file' ≡ file)
                  × (awaiting ≡ false)
                  × (text_eq (core.content_hash (utf8_bytes c.source)) (core.content_hash found)
                      ≡ true)))
          → (file' ≡ some (utf8_bytes c.source))
            ⊎ ((file' ≡ file)
                × (awaiting ≡ false)
                × (core.content_hash found ≡ core.content_hash (utf8_bytes c.source)))
      by_hash (inl e) = inl e
      by_hash (inr (kept, live, same)) = inr (kept, live, sym (text_eq→eq _ _ same))
