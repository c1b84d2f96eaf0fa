-- ===== src/Prelude/Exceptions.antt =====
-- The exceptions that the source throws, and the results of code that may throw.
use Prim.Native.String.{String}
use mathlib.Core.Path.{◌≡◌, refl}
use mathlib.Core.Bool.{Bool, true, false}
use fin_core_streaming_syste.Prelude.Texts.{Text}

-- What `what()` returns: a literal, a literal in front of a text, or a text that is put together.
pub data Message : Type 0 where
  lit : String → Message
  about : String → Text → Message
  built : Text → Message

-- `database_error` holds the message and the SQLSTATE of `DatabaseError`; `other` is any exception
-- that a collaborator of the source throws.
pub data Exception : Type 0 where
  invalid_argument : Message → Exception
  out_of_range : Message → Exception
  logic_error : Message → Exception
  runtime_error : Message → Exception
  database_error : Text → Text → Exception
  other : Text → Exception

pub data Result {ℓ} (A : Type ℓ) : Type ℓ where
  ok : A → Result A
  err : Exception → Result A

-- `if (!condition) throw error;`
abbrev pub guard : Bool → Exception → Result (Unit {0})
guard false thrown = err thrown
guard true thrown = ok tt

module _ {ℓ κ} {A : Type ℓ} {B : Type κ} where
  infixl 5 ◌<$>◌ ◌>>=◌
  abbrev pub ◌<$>◌ : (A → B) → Result A → Result B
  f <$> ok value = ok (f value)
  f <$> err thrown = err thrown

  -- An exception leaves the rest of the code out.
  abbrev pub ◌>>=◌ : Result A → (A → Result B) → Result B
  ok value >>= next = next value
  err thrown >>= next = err thrown

  -- Both parts of a sequence that ends well have done so.
  pub >>=-eq-ok :
      (first : Result A) (next : A → Result B) {result : B}
      → (first >>= next) ≡ ok result
      → (value : A) × (first ≡ ok value) × (next value ≡ ok result)
  >>=-eq-ok (ok value) next h = (value, refl, h)
  >>=-eq-ok (err thrown) next h = cc

module _ {ℓ} {B : Type ℓ} where
  infixl 5 ◌>>◌
  abbrev pub ◌>>◌ : Result (Unit {0}) → Result B → Result B
  ok done >> rest = rest
  err thrown >> rest = err thrown

  pub guard-eq-ok :
      (condition : Bool) (thrown : Exception) (rest : Result B) {result : B}
      → (guard condition thrown >> rest) ≡ ok result
      → (condition ≡ true) × (rest ≡ ok result)
  guard-eq-ok true thrown rest h = (refl, h)
  guard-eq-ok false thrown rest h = cc

pub ok-injective {ℓ} : {A : Type ℓ} {a b : A} → ok a ≡ ok b → a ≡ b
ok-injective h = cc

pub ok≢err {ℓ} : {A : Type ℓ} {a : A} {e : Exception} → ok a ≡ err e → ⊥
ok≢err h = cc
