-- ===== src/Io/Exceptions.antt =====
-- inc/exception_interface.h: exceptions, what a method that can throw returns, and the container
-- that turns caught exceptions into a return code.
use Prim.Native.Char.{code}
use Prim.Native.String.{String}
use data_backup.Base.{ℕ, Bool, true, false, List, [], ◌∷◌}

-- The bytes of a text literal.
abbrev pub codes : String → List ℕ
codes String.[] = []
codes (String.◌∷◌ c s) = code c ∷ codes s

-- The class of an exception object, one for each `class ...Exception : public BaseException`.
pub data ExceptionClass : Type 0 where
  copy compresse decompresse encrypt decrypt pack unpack sha : ExceptionClass

pub record BaseException : Type 0 where
  pub class_of : ExceptionClass
  pub file_nm : List ℕ
  pub msg : List ℕ

-- What a method leaves behind: a value, an exception thrown as a pointer (`throw new E`), an
-- exception thrown as a value (`throw E`, which no `catch(BaseException *)` takes), an access
-- through a null pointer, or (no behaviour of the code) a loop of the model without fuel.
pub data Outcome (S A : Type 0) : Type 0 where
  ok : A → S → Outcome S A
  throw : BaseException → S → Outcome S A
  throw_value : BaseException → S → Outcome S A
  undefined : Outcome S A
  stuck : Outcome S A

abbrev pub Io : Type 0 → Type 0 → Type 0
Io S A = S → Outcome S A

abbrev pub bind : {S A B : Type 0} → Outcome S A → (A → Io S B) → Outcome S B
bind (ok a s) f = f a s
bind (throw e s) f = throw e s
bind (throw_value e s) f = throw_value e s
bind undefined f = undefined
bind stuck f = stuck

infixl 5 ◌>>=◌ ◌>>◌
abbrev pub ◌>>=◌ : {S A B : Type 0} → Io S A → (A → Io S B) → Io S B
◌>>=◌ m f s = bind (m s) f

abbrev pub ◌>>◌ : {S B : Type 0} → Io S (Unit {0}) → Io S B → Io S B
◌>>◌ m k s = bind (m s) (λ _. k)

abbrev pub pure : {S A : Type 0} → A → Io S A
pure a s = ok a s

abbrev pub raise : {S A : Type 0} → BaseException → Io S A
raise e s = throw e s

-- `if (failed) throw new E(...)`
abbrev pub throw_if : {S : Type 0} → Bool → BaseException → Io S (Unit {0})
throw_if true e s = throw e s
throw_if false e s = ok tt s

-- `new E("", msg)`
abbrev pub new_exception : ExceptionClass → List ℕ → BaseException
new_exception c m = record { class_of = c; file_nm = []; msg = m }
