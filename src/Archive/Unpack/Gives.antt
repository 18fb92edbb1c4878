-- ===== src/Archive/Unpack/Gives.antt =====
-- Runs on the archive that end in a value, whatever calls fail.
use data_backup.Base.{List, [], ◌∷◌, Bool, true, false}
use data_backup.Io.{Io, Outcome, Streams, ok, throw, throw_value, undefined, stuck, bind, call_with}

-- A value and a state, and no exception.
abbrev pub Gives : {A : Type 0} → (A → Streams → Type 0) → Outcome Streams A → Type 0
Gives P (ok a s) = P a s
Gives P (throw e s) = ⊥
Gives P (throw_value e s) = ⊥
Gives P undefined = ⊥
Gives P stuck = ⊥

pub bind-Gives :
    {A B : Type 0} (P : A → Streams → Type 0) (Q : B → Streams → Type 0) (m : Outcome Streams A)
    (f : A → Io Streams B)
    → Gives P m
    → ((a : A) (s : Streams) → P a s → Gives Q (f a s))
    → Gives Q (bind m f)
bind-Gives P Q (ok a s) f h k = k a s h
bind-Gives P Q (throw e s) f h k = h
bind-Gives P Q (throw_value e s) f h k = h
bind-Gives P Q undefined f h k = h
bind-Gives P Q stuck f h k = h

pub Gives-map :
    {A : Type 0} (P Q : A → Streams → Type 0) (m : Outcome Streams A)
    → ((a : A) (s : Streams) → P a s → Q a s)
    → Gives P m
    → Gives Q m
Gives-map P Q (ok a s) f h = f a s h
Gives-map P Q (throw e s) f h = h
Gives-map P Q (throw_value e s) f h = h
Gives-map P Q undefined f h = h
Gives-map P Q stuck f h = h

pub call_with-Gives :
    {A : Type 0} (P : A → Streams → Type 0) (faults : List Bool) (failure : A)
    (result : Streams → A) (effect : Streams → Streams) (s : Streams)
    → ((later : List Bool) → P failure (record s { faults = later }))
    → ((later : List Bool) → P (result s) (record (effect s) { faults = later }))
    → P (result s) (effect s)
    → Gives P (call_with faults failure result effect s)
call_with-Gives P [] failure result effect s f g h = h
call_with-Gives P (true ∷ later) failure result effect s f g h = f later
call_with-Gives P (false ∷ later) failure result effect s f g h = g later
