-- ===== src/Kube/Error.antt =====
-- Go's `error`: a value or an error, and what the code tells errors apart by.
use vcf_salt_operator.Prelude.{String, Bool, true, false}

-- `resolve` is a `raasconn.Error` with its reason; `context` is an error wrapped by
-- `fmt.Errorf("...: %w", err)`, with the text of the format.
pub data Error : Type 0 where
  not_found : Error
  already_exists : Error
  failure : String → Error
  resolve_error : String → Error
  context : String → Error → Error

-- `client.IgnoreNotFound` of a library that looks through wrapped errors.
abbrev pub is_not_found : Error → Bool
is_not_found not_found = true
is_not_found (context _ e) = is_not_found e
is_not_found _ = false

abbrev pub is_already_exists : Error → Bool
is_already_exists already_exists = true
is_already_exists (context _ e) = is_already_exists e
is_already_exists _ = false

-- A call that returns `(A, error)`.
pub data Result {ℓ} (A : Type ℓ) : Type ℓ where
  err : Error → Result A
  ok : A → Result A

-- An early return with an error, unless the test holds.
abbrev pub guard : Bool → Error → Result (Unit {0})
guard false refusal = err refusal
guard true refusal = ok tt

infixl 5 ◌>>=◌ ◌>>◌
-- `if err != nil { return err }`
abbrev pub ◌>>=◌ {ℓ₁ ℓ₂} : {A : Type ℓ₁} {B : Type ℓ₂} → Result A → (A → Result B) → Result B
err failed >>= next = err failed
ok value >>= next = next value

abbrev pub ◌>>◌ {ℓ₁} : {B : Type ℓ₁} → Result (Unit {0}) → Result B → Result B
checked >> result = checked >>= λ _. result
