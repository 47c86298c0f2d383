-- ===== src/Workspace/Journal/Moves.antt =====
-- A write and a move are undone by the step that the journal keeps of them.
use burlmd.Prelude.{
  ◌≡◌, sym, ap, ◌∙◌, inl, inr, true, ◌||◌, none, some, is_some, [], ◌∷◌, ◌++◌, if◌then◌else◌,
  Bool-cases, Option-cases,
}
use burlmd.Prelude.Text.{Text, text_eq, text_eq→eq, starts_with, strip_prefix}
use burlmd.Prelude.Affixes.{strip_prefix-append, strip_prefix-eq-some}
use burlmd.Okf.ConceptId.{slash}
use burlmd.Workspace.Journal.{Disk, under, write, move}

-- No file is at the path or in a directory there.
abbrev pub IsFree : Text → Disk → Type 0
IsFree path disk = (p : Text) → is_some (under path p) ≡ true → disk p ≡ none

under-eq-some : (top p : Text) {rest : Text} → under top p ≡ some rest → p ≡ top ++ rest
unfolding under
under-eq-some top p {rest} h = elim (Option-cases (strip_prefix top p)) [
  | inl e ↦ cc (rw e at h)
  | inr (r, e) ↦ elim (Bool-cases (text_eq r [] || starts_with (slash ∷ []) r)) [
    | inl t ↦
        let same : some r ≡ some rest = (rw (e, t) at h) in
        cc (strip_prefix-eq-some top p {r = r} e, same)
    | inr t ↦ cc (rw (e, t) at h)
  ]
]

-- What is under one path is under another by the same rest.
under_moved :
    (from to p : Text) {rest : Text} → under from p ≡ some rest → under to (to ++ rest) ≡ some rest
unfolding under
under_moved from to p {rest} h = elim (Option-cases (strip_prefix from p)) [
  | inl e ↦ cc (rw e at h)
  | inr (r, e) ↦ elim (Bool-cases (text_eq r [] || starts_with (slash ∷ []) r)) [
    | inl t ↦
        let same : some r ≡ some rest = (rw (e, t) at h) in
        rw (strip_prefix-append to rest) (fits r rest (cc same) t)
    | inr t ↦ cc (rw (e, t) at h)
  ]
]
  where
    fits :
        (r rest : Text)
        → r ≡ rest
        → (text_eq r [] || starts_with (slash ∷ []) r) ≡ true
        → (if text_eq rest [] || starts_with (slash ∷ []) rest then some rest else none) ≡ some rest
    fits r rest e t = rw (← e, t)

pub write_back :
    (path bytes : Text) (disk : Disk) → write path (disk path) (write path (some bytes) disk) ≡ disk
unfolding write
write_back path bytes disk = λ i p. pointwise p i
  where
    pointwise :
        (p : Text)
        → (if text_eq p path then disk path else if text_eq p path then some bytes else disk p)
          ≡ disk p
    pointwise p = elim (Bool-cases (text_eq p path)) [
      | inl e ↦ rw e (ap disk (sym (text_eq→eq p path e)))
      | inr e ↦ rw e
    ]

module _ (from to : Text) (disk : Disk) (p : Text) where
  move-under : {rest : Text} → under to p ≡ some rest → move from to disk p ≡ disk (from ++ rest)
  unfolding move
  move-under e = rw (e, move)

  move_away : under to p ≡ none → is_some (under from p) ≡ true → move from to disk p ≡ none
  unfolding move
  move_away e f = rw (e, move, f)

  move_else : under to p ≡ none → under from p ≡ none → move from to disk p ≡ disk p
  unfolding move
  move_else e f = rw (e, move, f)

pub move_back :
    (from to : Text) (disk : Disk) → IsFree to disk → move to from (move from to disk) ≡ disk
move_back from to disk free = λ i p. pointwise p i
  where
    pointwise : (p : Text) → move to from (move from to disk) p ≡ disk p
    pointwise p = elim (Option-cases (under from p)) [
      | inr (rest, e) ↦
          move-under to from (move from to disk) p {rest = rest} e
          ∙ move-under from to disk (to ++ rest) {rest = rest}
              (under_moved from to p {rest = rest} e)
          ∙ ap disk (sym (under-eq-some from p {rest = rest} e))
      | inl e ↦ elim (Option-cases (under to p)) [
        | inr (rest, f) ↦
            move_away to from (move from to disk) p e (ap is_some f) ∙ sym (free p (ap is_some f))
        | inl f ↦ move_else to from (move from to disk) p e f ∙ move_else from to disk p f e
      ]
    ]
