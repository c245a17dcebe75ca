-- ===== src/Base/Errors.antt =====
-- The outcome of code that may throw. Each message of the source's `THROW_RUNTIME_ERROR` and
-- `ASSERT` has a constructor; `out_of_bounds` stands for an access outside a vector or a
-- buffer, which the source leaves undefined.
use Prim.Native.Nat.{ℕ, zero, suc, ◌<◌}
use mathlib.Core.Path.{◌≡◌, refl}
use mathlib.Core.Logic.{◌⊎◌, inl, inr}
use mathlib.Core.List.{List, [], ◌∷◌}
use mathlib.Core.Option.{Option, none, some}
use mathlib.Core.Bool.{Bool, true, false}
use columnar_engine.Base.Lists.{get_elem?, length}
use native.Mathlib.Omega.{arith}

pub data Error : Type 0 where
  out_of_bounds : Error
  invalid_date : Error
  unknown_time_unit : Error
  invalid_value : Error
  unaligned_buffer : Error
  condition_not_satisfied : Error
  unknown_column_type : Error
  column_not_found : Error
  unsupported_column_type : Error
  invalid_field_format : Error
  not_two_dimensional : Error
  file_too_small : Error
  invalid_footer_magic : Error
  column_index_out_of_range : Error
  chunk_index_out_of_range : Error
  failed_to_read : Error
  header_already_written : Error
  header_not_written : Error
  columns_mismatch : Error
  invalid_header_token : Error
  width_mismatch : Error
  not_implemented : Error
  length_error : Error
  out_of_fuel : Error
  column_not_in_dataframe : Error
  wrong_column_type : Error
  overflow : Error

pub data Result {ℓ} (Value : Type ℓ) : Type ℓ where
  err : Error → Result Value
  ok : Value → Result Value

-- `if (!test) throw failure;`
abbrev pub guard : Bool → Error → Result (Unit {0})
guard false failure = err failure
guard true failure = ok tt

infixl 5 ◌>>=◌ ◌>>◌
abbrev pub ◌>>=◌ {ℓ κ} : {A : Type ℓ} {B : Type κ} → Result A → (A → Result B) → Result B
err failure >>= next = err failure
ok value >>= next = next value

abbrev pub of_option {ℓ} : {A : Type ℓ} → Option A → Result A
of_option none = err out_of_bounds
of_option (some a) = ok a

abbrev pub ◌>>◌ {ℓ} : {B : Type ℓ} → Result (Unit {0}) → Result B → Result B
first >> next = first >>= λ _. next

-- `xs[i]` on a vector.
abbrev pub at {ℓ} : {A : Type ℓ} → List A → ℕ → Result A
at xs i = of_option (get_elem? xs i)

-- The two ways in which code ends.
pub Result-cases {ℓ} :
    {A : Type ℓ} (run : Result A)
    → ((failure : Error) × (run ≡ err failure)) ⊎ ((value : A) × (run ≡ ok value))
Result-cases (err failure) = inl (failure, refl)
Result-cases (ok value) = inr (value, refl)

-- Code in two steps that succeeds does so in both.
pub >>=-eq-ok {ℓ κ} :
    {A : Type ℓ} {B : Type κ} {result : B} (first : Result A) (next : A → Result B)
    → (first >>= next) ≡ ok result
    → (value : A) × (first ≡ ok value) × (next value ≡ ok result)
>>=-eq-ok (err failure) next h = cc
>>=-eq-ok (ok value) next h = (value, refl, h)

-- Code in two steps that succeed both succeeds.
pub >>=-total {ℓ κ} :
    {A : Type ℓ} {B : Type κ} (first : Result A) (next : A → Result B)
    → (a : A) × (first ≡ ok a)
    → ((a : A) → first ≡ ok a → (b : B) × (next a ≡ ok b))
    → (b : B) × ((first >>= next) ≡ ok b)
>>=-total (err failure) next h f = cc
>>=-total (ok value) next h f = f value refl

pub ok-injective {ℓ} : {A : Type ℓ} {a b : A} → ok a ≡ ok b → a ≡ b
ok-injective h = cc

pub at_lt {ℓ} : {A : Type ℓ} (xs : List A) (i : ℕ) → i < length xs → (a : A) × (at xs i ≡ ok a)
at_lt [] i h = elim h [ ]
at_lt (x ∷ xs) zero h = (x, refl)
at_lt (x ∷ xs) (suc i) h = at_lt xs i (omega arith)

-- Where what follows a read fails in the same way, a failed read makes no difference.
pub bind-out_of_bounds {ℓ κ} :
    {A : Type ℓ} {B : Type κ} (o : Option A) (f : A → Result B)
    → ((a : A) → f a ≡ err out_of_bounds)
    → (of_option o >>= f) ≡ err out_of_bounds
bind-out_of_bounds none f h = refl
bind-out_of_bounds (some a) f h = h a
