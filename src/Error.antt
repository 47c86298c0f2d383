-- ===== src/Error.antt =====
-- rust/src/error.rs: the error of every component. A message is text; its prose is written where
-- an operation builds it.
use burlmd.Prelude.{◌≡◌, refl, ◌⊎◌, inl, inr}
use burlmd.Prelude.Text.{Text}

pub data AppError : Type 0 where
  disk_full auth_expired git_conflict oauth_state_mismatch : AppError
  revision_mismatch path_unavailable not_found database_error crypto_error : Text → AppError
  network_error oauth_error io_error parse_error : Text → AppError

pub data Result {ℓ} (A : Type ℓ) : Type ℓ where
  ok : A → Result A
  err : AppError → Result A

infixl 5 ◌>>=◌
abbrev pub ◌>>=◌ {κ ι} : {X : Type κ} {Y : Type ι} → Result X → (X → Result Y) → Result Y
outcome >>= next = elim outcome [ ok x ↦ next x | err e ↦ err e ]

pub >>=-eq-ok :
    {X Y : Type 0} (next : X → Result Y) {y : Y} (outcome : Result X)
    → (outcome >>= next) ≡ ok y
    → (x : X) × (next x ≡ ok y) × (outcome ≡ ok x)
>>=-eq-ok next (err e) failed = cc
>>=-eq-ok next (ok x) reached = (x, reached, refl)

pub ok_inj : {A : Type 0} {a b : A} → ok a ≡ ok b → a ≡ b
ok_inj e = cc

-- A chain of which every link is reached.
pub >>=-ok :
    {X Y : Type 0} {outcome : Result X} {x : X} (next : X → Result Y)
    → outcome ≡ ok x
    → (outcome >>= next) ≡ next x
>>=-ok next e = rw e refl

pub Result-cases :
    {A : Type 0} (r : Result A) → ((e : AppError) × (r ≡ err e)) ⊎ ((a : A) × (r ≡ ok a))
Result-cases (ok a) = inr (a, refl)
Result-cases (err e) = inl (e, refl)
