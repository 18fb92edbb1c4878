-- ===== src/World/Runs.antt =====
-- Runs that keep a property of the state, however they end.
use data_backup.Base.{Bool, true, false, if◌then◌else◌}
use data_backup.Io.{
  Io, Outcome, BaseException, ok, throw, throw_value, undefined, stuck, bind, ◌>>=◌, ◌>>◌, throw_if,
}
use data_backup.World.Calls.{map_state}

abbrev pub Leaves : {S A : Type 0} → (S → Type 0) → Outcome S A → Type 0
Leaves P (ok a s) = P s
Leaves P (throw e s) = P s
Leaves P (throw_value e s) = P s
Leaves P undefined = Unit {0}
Leaves P stuck = Unit {0}

abbrev pub Preserves : {S A : Type 0} → (S → Type 0) → Io S A → Type 0
Preserves {S} P m = (s : S) → P s → Leaves P (m s)

pub bind-Leaves :
    {S A B : Type 0} (P : S → Type 0) (o : Outcome S A) (f : A → Io S B)
    → Leaves P o
    → ((a : A) → Preserves P (f a))
    → Leaves P (bind o f)
bind-Leaves P (ok a s) f h k = k a s h
bind-Leaves P (throw e s) f h k = h
bind-Leaves P (throw_value e s) f h k = h
bind-Leaves P undefined f h k = tt
bind-Leaves P stuck f h k = tt

pub bind-Preserves :
    {S A B : Type 0} (P : S → Type 0) (m : Io S A) (f : A → Io S B)
    → Preserves P m
    → ((a : A) → Preserves P (f a))
    → Preserves P (m >>= f)
bind-Preserves P m f h k s p = bind-Leaves P (m s) f (h s p) k

pub then-Preserves :
    {S B : Type 0} (P : S → Type 0) (m : Io S (Unit {0})) (n : Io S B)
    → Preserves P m
    → Preserves P n
    → Preserves P (m >> n)
then-Preserves P m n h k s p = bind-Leaves P (m s) (λ _. n) (h s p) (λ _. k)

pub throw_if-Preserves :
    {S : Type 0} (P : S → Type 0) (b : Bool) (e : BaseException) → Preserves P (throw_if b e)
throw_if-Preserves P true e s p = p
throw_if-Preserves P false e s p = p

pub if-Preserves :
    {S A : Type 0} (P : S → Type 0) (b : Bool) (m n : Io S A)
    → Preserves P m
    → Preserves P n
    → Preserves P (if b then m else n)
if-Preserves P true m n h k = h
if-Preserves P false m n h k = k

pub if-Leaves :
    {S A : Type 0} (P : S → Type 0) (b : Bool) (o o' : Outcome S A)
    → Leaves P o
    → Leaves P o'
    → Leaves P (if b then o else o')
if-Leaves P true o o' h k = h
if-Leaves P false o o' h k = k

-- Runs that keep `P` of the state, and whose value, if they give one, satisfies `Q`.
abbrev pub Gives : {S A : Type 0} → (A → Type 0) → (S → Type 0) → Outcome S A → Type 0
Gives Q P (ok a s) = Q a × P s
Gives Q P (throw e s) = P s
Gives Q P (throw_value e s) = P s
Gives Q P undefined = Unit {0}
Gives Q P stuck = Unit {0}

abbrev pub Yields : {S A : Type 0} → (A → Type 0) → (S → Type 0) → Io S A → Type 0
Yields {S} Q P m = (s : S) → P s → Gives Q P (m s)

bind-Gives :
    {S A B : Type 0} (Q : B → Type 0) (P : S → Type 0) (o : Outcome S A) (f : A → Io S B)
    → Leaves P o
    → ((a : A) → Yields Q P (f a))
    → Gives Q P (bind o f)
bind-Gives Q P (ok a s) f h k = k a s h
bind-Gives Q P (throw e s) f h k = h
bind-Gives Q P (throw_value e s) f h k = h
bind-Gives Q P undefined f h k = tt
bind-Gives Q P stuck f h k = tt

pub bind-Yields :
    {S A B : Type 0} (Q : B → Type 0) (P : S → Type 0) (m : Io S A) (f : A → Io S B)
    → Preserves P m
    → ((a : A) → Yields Q P (f a))
    → Yields Q P (m >>= f)
bind-Yields Q P m f h k s p = bind-Gives Q P (m s) f (h s p) k

pub if-Yields :
    {S A : Type 0} (Q : A → Type 0) (P : S → Type 0) (b : Bool) (m n : Io S A)
    → Yields Q P m
    → Yields Q P n
    → Yields Q P (if b then m else n)
if-Yields Q P true m n h k = h
if-Yields Q P false m n h k = k

Gives-Leaves :
    {S A B : Type 0} (Q : A → Type 0) (P : S → Type 0) (o : Outcome S A) (f : A → Io S B)
    → Gives Q P o
    → ((a : A) → Q a → Preserves P (f a))
    → Leaves P (bind o f)
Gives-Leaves Q P (ok a s) f h k = k a h.0 s h.1
Gives-Leaves Q P (throw e s) f h k = h
Gives-Leaves Q P (throw_value e s) f h k = h
Gives-Leaves Q P undefined f h k = tt
Gives-Leaves Q P stuck f h k = tt

-- A run whose value the next one relies on.
pub Yields-Preserves :
    {S A B : Type 0} (Q : A → Type 0) (P : S → Type 0) (m : Io S A) (f : A → Io S B)
    → Yields Q P m
    → ((a : A) → Q a → Preserves P (f a))
    → Preserves P (m >>= f)
Yields-Preserves Q P m f h k s p = Gives-Leaves Q P (m s) f (h s p) k

-- A run on a part of the state.
pub map_state-Leaves :
    {S T A : Type 0} (P : S → Type 0) (Q : T → Type 0) (f : T → S) (o : Outcome T A)
    → ((t : T) → Q t → P (f t))
    → Leaves Q o
    → Leaves P (map_state f o)
map_state-Leaves P Q f (ok a t) g h = g t h
map_state-Leaves P Q f (throw e t) g h = g t h
map_state-Leaves P Q f (throw_value e t) g h = g t h
map_state-Leaves P Q f undefined g h = tt
map_state-Leaves P Q f stuck g h = tt

pub any-Leaves : {S A : Type 0} (o : Outcome S A) → Leaves (λ s. Unit {0}) o
any-Leaves (ok a s) = tt
any-Leaves (throw e s) = tt
any-Leaves (throw_value e s) = tt
any-Leaves undefined = tt
any-Leaves stuck = tt
