-- ===== src/Io/Safe.antt =====
-- Runs on any source with any failing calls: which values and states they end in, if they end in a
-- value, and that they end in a value or an exception that the handlers catch.
use data_backup.Base.{
  ℕ, zero, suc, ◌<◌, ◌≤◌, ◌≡◌, refl, ap, ◌∙◌, Bool, true, false, ◌⊎◌, inl, inr, List, [], ◌∷◌, ◌++◌,
  Option, none, some, length, length-take, length-drop, take, drop, ◌==◌, if◌then◌else◌, arith,
}
use data_backup.Io.Exceptions.{
  BaseException, Outcome, ok, throw, throw_value, undefined, stuck, Io, bind, ◌>>◌, pure, raise,
  throw_if,
}
use data_backup.Io.Descriptors.{
  Streams, call_with, system_call, read, write, write_exactly, exactly, read_exactly, close,
  close_or_throw, fsync,
}
use data_backup.Io.Loops.{max_buf_size, for_each, read_round, read_loop_fuel, read_loop}
use data_backup.Io.Buffer.{put_byte}

abbrev pub Holds : {A : Type 0} → (A → Streams → Type 0) → Outcome Streams A → Type 0
Holds P (ok a s) = P a s
Holds P (throw e s) = Unit {0}
Holds P (throw_value e s) = ⊥
Holds P undefined = ⊥
Holds P stuck = ⊥

-- The source stays where it is.
abbrev pub Stays : {A : Type 0} → Streams → A → Streams → Type 0
Stays s a s' = s'.input ≡ s.input

pub bind-Holds :
    {A B : Type 0} (P : A → Streams → Type 0) (Q : B → Streams → Type 0) (m : Outcome Streams A)
    (f : A → Io Streams B)
    → Holds P m
    → ((a : A) (s : Streams) → P a s → Holds Q (f a s))
    → Holds Q (bind m f)
bind-Holds P Q (ok a s) f h k = k a s h
bind-Holds P Q (throw e s) f h k = tt
bind-Holds P Q (throw_value e s) f h k = h
bind-Holds P Q undefined f h k = h
bind-Holds P Q stuck f h k = h

pub Holds-map :
    {A : Type 0} (P Q : A → Streams → Type 0) (m : Outcome Streams A)
    → ((a : A) (s : Streams) → P a s → Q a s)
    → Holds P m
    → Holds Q m
Holds-map P Q (ok a s) f h = f a s h
Holds-map P Q (throw e s) f h = tt
Holds-map P Q (throw_value e s) f h = h
Holds-map P Q undefined f h = h
Holds-map P Q stuck f h = h

pub call_with-Holds :
    {A : Type 0} (P : A → Streams → Type 0) (faults : List Bool) (failure : A)
    (result : Streams → A) (effect : Streams → Streams) (s : Streams)
    → ((later : List Bool) → P failure (record s { faults = later }))
    → ((later : List Bool) → P (result s) (record (effect s) { faults = later }))
    → P (result s) (effect s)
    → Holds P (call_with faults failure result effect s)
call_with-Holds P [] failure result effect s f g h = h
call_with-Holds P (true ∷ later) failure result effect s f g h = f later
call_with-Holds P (false ∷ later) failure result effect s f g h = g later

throw_if-Holds :
    (P : Unit {0} → Streams → Type 0) (b : Bool) (e : BaseException) (s : Streams)
    → P tt s
    → Holds P (throw_if b e s)
throw_if-Holds P true e s h = tt
throw_if-Holds P false e s h = h

pub write_exactly-Holds :
    (bytes : List ℕ) (e : BaseException) (s : Streams) → Holds (Stays s) (write_exactly bytes e s)
unfolding write_exactly
write_exactly-Holds bytes e s =
    bind-Holds (Stays s) (Stays s) (write bytes s) _
      (unfold write in call_with-Holds (Stays s) s.faults _ _ _ s (λ _. refl) (λ _. refl) refl)
      (λ n s' h. throw_if-Holds (Stays s) _ e s' h)

pub close_or_throw-Holds : (e : BaseException) (s : Streams) → Holds (Stays s) (close_or_throw e s)
unfolding close_or_throw close
close_or_throw-Holds e s =
    bind-Holds (Stays s) (Stays s) (close s) _
      (call_with-Holds (Stays s) s.faults _ _ _ s (λ _. refl) (λ _. refl) refl)
      (λ n s' h. throw_if-Holds (Stays s) n e s' h)

pub fsync-Holds : (s : Streams) → Holds (Stays s) (fsync s)
unfolding fsync
fsync-Holds s = call_with-Holds (Stays s) s.faults _ _ _ s (λ _. refl) (λ _. refl) refl

pub put_byte-Holds :
    (e : BaseException) (b : ℕ) (buf : List ℕ) (s : Streams) → Holds (Stays s) (put_byte e b buf s)
unfolding put_byte
put_byte-Holds e b buf s = by_room (length (buf ++ b ∷ []) == max_buf_size)
  where
    by_room :
        (full : Bool)
        → Holds (Stays s) (
            (if full then (write_exactly (buf ++ b ∷ []) e >> pure []) else pure (buf ++ b ∷ [])) s)
    by_room true =
        bind-Holds (Stays s) (Stays s) (write_exactly (buf ++ b ∷ []) e s) _
          (write_exactly-Holds (buf ++ b ∷ []) e s) (λ _ s' h. h)
    by_room false = refl

-- A read fails, or takes the next bytes.
abbrev pub Taken : ℕ → Streams → Option (List ℕ) → Streams → Type 0
Taken n s o s' = (o ≡ none) ⊎ ((o ≡ some (take n s.input)) × (s'.input ≡ drop n s.input))

pub read-Holds : (n : ℕ) (s : Streams) → Holds (Taken n s) (read n s)
unfolding read
read-Holds n s =
    call_with-Holds (Taken n s) s.faults _ _ _ s (λ _. inl refl) (λ _. inr (refl, refl))
      (inr (refl, refl))

abbrev pub Anything : {A : Type 0} → A → Streams → Type 0
Anything a s = Unit {0}

pub read_exactly-Holds :
    (n : ℕ) (e : BaseException) (s : Streams) → Holds Anything (read_exactly n e s)
unfolding read_exactly
read_exactly-Holds n e s =
    bind-Holds (Taken n s) Anything (read n s) (exactly n e) (read-Holds n s) λ o s' h. chosen o s'
  where
    if_equal :
        (same : Bool) (bytes : List ℕ) (s' : Streams)
        → Holds Anything ((if same then pure bytes else raise e) s')
    if_equal true bytes s' = tt
    if_equal false bytes s' = tt

    chosen : (o : Option (List ℕ)) (s' : Streams) → Holds Anything (exactly n e o s')
    chosen none s' = tt
    chosen (some bytes) s' = if_equal (length bytes == n) bytes s'

-- What has been read, all of it.
abbrev pub GotAll : ℕ → Streams → List ℕ → Streams → Type 0
GotAll n s bytes s' = (bytes ≡ take n s.input) × (s'.input ≡ drop n s.input)

pub read_exactly-GotAll :
    (n : ℕ) (e : BaseException) (s : Streams) → Holds (GotAll n s) (read_exactly n e s)
unfolding read_exactly
read_exactly-GotAll n e s =
    bind-Holds (Taken n s) (GotAll n s) (read n s) (exactly n e) (read-Holds n s)
      λ o s' t. chosen o s' t
  where
    bytes_or : Option (List ℕ) → List ℕ
    bytes_or none = []
    bytes_or (some bytes) = bytes

    if_equal :
        (same : Bool) (bytes : List ℕ) (s' : Streams)
        → GotAll n s bytes s'
        → Holds (GotAll n s) ((if same then pure bytes else raise e) s')
    if_equal true bytes s' h = h
    if_equal false bytes s' h = tt

    chosen :
        (o : Option (List ℕ)) (s' : Streams)
        → Taken n s o s'
        → Holds (GotAll n s) (exactly n e o s')
    chosen none s' t = tt
    chosen (some bytes) s' (inl missing) = absurd (grind (arith, missing))
    chosen (some bytes) s' (inr (taken, rest)) =
        if_equal (length bytes == n) bytes s' (ap bytes_or taken, rest)

-- The loops, with an invariant `I` of their variables: the source is as long as it was, and the fuel
-- of `read_loop` is enough whatever fails.
module _ {S : Type 0} (I : S → Type 0) where
  abbrev pub Keeps : Streams → S → Streams → Type 0
  Keeps s a s' = I a × (s'.input ≡ s.input)

  pub for_each-Holds :
      (body : ℕ → S → Io Streams S)
      → ((b : ℕ) (a : S) (s : Streams) → I a → Holds (Keeps s) (body b a s))
      → (xs : List ℕ) (a : S) (s : Streams) → I a
      → Holds (Keeps s) (for_each body xs a s)
  unfolding for_each
  for_each-Holds body step [] a s h = (h, refl)
  for_each-Holds body step (x ∷ xs) a s h =
      bind-Holds (Keeps s) (Keeps s) (body x a s) (for_each body xs) (step x a s h) λ a' s' (h', e).
        Holds-map (Keeps s') (Keeps s) (for_each body xs a' s') (λ a'' s'' (k, e'). (k, e' ∙ e))
          (for_each-Holds body step xs a' s' h')

  abbrev Kept : S → Streams → Type 0
  Kept a s = I a

  size_of : Option (List ℕ) → ℕ
  size_of none = 0
  size_of (some bytes) = length bytes

  module _ (e : BaseException) (body : List ℕ → S → Io Streams S)
      (step : (c : List ℕ) (a : S) (s : Streams)
        → length c ≤ max_buf_size
        → I a
        → Holds (Keeps s) (body c a s)) where
    -- One round, if the rest of the loop keeps the invariant on each shorter source.
    round-Holds :
        (again : S → Io Streams S) (a : S) (s : Streams)
        → ((a' : S) (s' : Streams)
            → length s'.input < length s.input
            → I a'
            → Holds Kept (again a' s'))
        → I a
        → (o : Option (List ℕ)) (s' : Streams) → Taken max_buf_size s o s'
        → Holds Kept (read_round e body again o a s')
    unfolding read_round size_of
    round-Holds again a s more h none s' t = tt
    round-Holds again a s more h (some []) s' t = h
    round-Holds again a s more h (some (b ∷ bs)) s' (inl e') = absurd (grind (arith, e'))
    round-Holds again a s more h (some (b ∷ bs)) s' (inr (taken, rest)) =
        bind-Holds (Keeps s') Kept (body (b ∷ bs) a s') again
          (step (b ∷ bs) a s' (omega (arith, ap size_of taken, length-take max_buf_size s.input)) h)
          λ a' s'' (h', e').
            more a' s''
              (omega (
                arith,
                ap size_of taken,
                ap length rest,
                ap length e',
                length-take max_buf_size s.input,
                length-drop max_buf_size s.input,
              ))
              h'

    read_loop_fuel-Holds :
        (fuel : ℕ) (a : S) (s : Streams)
        → length s.input < fuel
        → I a
        → Holds Kept (read_loop_fuel fuel e body a s)
    unfolding read_loop_fuel
    read_loop_fuel-Holds zero a s lt h = absurd (omega arith)
    read_loop_fuel-Holds (suc fuel) a s lt h =
        bind-Holds (Taken max_buf_size s) Kept (read max_buf_size s) _ (read-Holds max_buf_size s) (
          round-Holds (read_loop_fuel fuel e body) a s
            (λ a' s' lt' h'. read_loop_fuel-Holds fuel a' s' (omega arith) h') h)

    pub read_loop-Holds : (a : S) (s : Streams) → I a → Holds Kept (read_loop e body a s)
    unfolding read_loop
    read_loop-Holds a s h = read_loop_fuel-Holds (suc (length s.input)) a s (omega arith) h

-- The two ways in which such a run ends.
pub Holds-cases :
    (m : Outcome Streams (Unit {0}))
    → Holds Anything m
    → ((s : Streams) × (m ≡ ok tt s)) ⊎ ((e : BaseException) × (s : Streams) × (m ≡ throw e s))
Holds-cases (ok tt s) h = inl (s, refl)
Holds-cases (throw e s) h = inr (e, s, refl)
Holds-cases (throw_value e s) h = absurd h
Holds-cases undefined h = absurd h
Holds-cases stuck h = absurd h

pub weaken :
    {A : Type 0} (P : A → Streams → Type 0) (m : Outcome Streams A) → Holds P m → Holds Anything m
weaken P m h = Holds-map P Anything m (λ _ _ _. tt) h

-- A call, and what is done with its result.
pub then-Holds :
    {A B : Type 0} (m : Outcome Streams A) (f : A → Io Streams B)
    → Holds Anything m
    → ((a : A) (s : Streams) → Holds Anything (f a s))
    → Holds Anything (bind m f)
then-Holds m f h k = bind-Holds Anything Anything m f h (λ a s _. k a s)

pub system_call-Holds :
    {A : Type 0} (failure : A) (result : Streams → A) (effect : Streams → Streams) (s : Streams)
    → Holds Anything (system_call failure result effect s)
system_call-Holds failure result effect s =
    call_with-Holds Anything s.faults failure result effect s (λ _. tt) (λ _. tt) tt

pub throw_if-Anything :
    (b : Bool) (e : BaseException) (s : Streams) → Holds Anything (throw_if b e s)
throw_if-Anything b e s = throw_if-Holds Anything b e s tt
