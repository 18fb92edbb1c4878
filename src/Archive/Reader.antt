-- ===== src/Archive/Reader.antt =====
-- Reads with an early return: `if(n != read(...)) return -1;`, as `Header::DeSerialize` does them.
use data_backup.Base.{
  ℕ, ◌-◌, ◌^◌, ◌<◌, ◌≡◌, refl, List, [], ◌++◌, Option, none, some, length, drop, of_le_bytes,
  le_bytes, length-le_bytes, of_le_bytes-le_bytes, ◌==◌, ==_iff, if◌then◌else◌, take-append_exact,
  drop-append_exact, true,
}
use data_backup.Io.{Io, Streams, ok, bind, streams, read, system_call}

-- `none` is the early return.
abbrev pub Reads : Type 0 → Type 0
Reads A = Io Streams (Option A)

abbrev pub continue_with : {A B : Type 0} → (A → Reads B) → Option A → Reads B
continue_with k none s = ok none s
continue_with k (some a) s = k a s

infixl 5 ◌>>=◌ ◌>>◌
abbrev pub ◌>>=◌ : {A B : Type 0} → Reads A → (A → Reads B) → Reads B
◌>>=◌ m k s = bind (m s) (continue_with k)

abbrev pub ◌>>◌ : {B : Type 0} → Reads (Unit {0}) → Reads B → Reads B
m >> k = m >>= λ _. k

abbrev pub give : {A : Type 0} → A → Reads A
give a s = ok (some a) s

abbrev pub all_of : ℕ → Option (List ℕ) → Option (List ℕ)
all_of n none = none
all_of n (some bytes) = if length bytes == n then some bytes else none

-- `n` bytes.
unfoldable pub take_bytes : ℕ → Reads (List ℕ)
unfolding read
take_bytes n s = bind (read n s) (λ bytes s'. ok (all_of n bytes) s')

-- An integer of `n` bytes.
unfoldable pub word : ℕ → Reads ℕ
word n = do bytes ← take_bytes n; give (of_le_bytes bytes)

-- `lseek(backup_fd, 0, SEEK_CUR)` and `lseek(backup_fd, 0, SEEK_END)`; `none` is -1.
unfoldable pub tell : Io Streams (Option ℕ)
tell = system_call none (λ s. some (length s.whole - length s.input)) (λ s. s)

unfoldable pub seek_end : Io Streams (Option ℕ)
seek_end = system_call none (λ s. some (length s.whole)) (λ s. record s { input = [] })

-- `lseek(backup_fd, old_pos, SEEK_SET)`: the offset -1 is refused.
abbrev pub set_offset : Option ℕ → Streams → Streams
set_offset none s = s
set_offset (some n) s = record s { input = drop n s.whole }

unfoldable pub seek_set : Option ℕ → Io Streams (Unit {0})
seek_set offset = system_call tt (λ s. tt) (set_offset offset)

beq_refl : (n : ℕ) → (n == n) ≡ true
beq_refl n = (==_iff n n).1 refl

pub take_bytes_lem :
    (n : ℕ) (bytes rest whole out : List ℕ) (offset : ℕ)
    → length bytes ≡ n
    → take_bytes n (streams (bytes ++ rest) whole out offset)
      ≡ ok (some bytes) (streams rest whole out offset)
unfolding take_bytes
take_bytes_lem n bytes rest whole out offset h =
    rw (take-append_exact n bytes rest h, drop-append_exact n bytes rest h)
      (rw h (rw (beq_refl n) refl))

pub word_lem :
    (k n : ℕ) (rest whole out : List ℕ) (offset : ℕ)
    → n < 256 ^ k
    → word k (streams (le_bytes k n ++ rest) whole out offset)
      ≡ ok (some n) (streams rest whole out offset)
unfolding word
word_lem k n rest whole out offset h =
    rw (take_bytes_lem k (le_bytes k n) rest whole out offset (length-le_bytes k n))
      (rw (of_le_bytes-le_bytes k n h) refl)
