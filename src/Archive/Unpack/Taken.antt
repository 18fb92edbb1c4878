-- ===== src/Archive/Unpack/Taken.antt =====
-- src/header.cpp, `DeSerialize`: what it takes from the archive, on any archive and with any failing calls.
use data_backup.Base.{
  true, false, Bool, ℕ, zero, suc, ◌+◌, ◌-◌, ◌<◌, ◌≤◌, ◌≡◌, refl, ap, List, [], ◌++◌, Option, none,
  some, ◌==◌, ==_iff, length, length-take, length-drop, take, drop, arith, pos, ◌/◌, ◌%◌,
  if◌then◌else◌,
}
use data_backup.Io.{Streams, ok, bind, read}
use data_backup.Archive.Unpack.Gives.{Gives, bind-Gives, Gives-map, call_with-Gives}
use data_backup.Archive.Reader.{
  Reads, continue_with, all_of, take_bytes, word, tell, seek_end, seek_set,
}
use data_backup.Archive.Header.{
  Header, Parsed, parsed, at_end, failed, max_nm_lth, c_string, read_pieces, read_path,
  read_timespec, read_header, parsed_or_failed, same_offset, deserialize,
}

-- Nothing is taken back, and a result that is there has taken `n` bytes.
abbrev used : {A : Type 0} → ℕ → Option A → ℕ
used n none = 0
used n (some a) = n

abbrev Takes : {A : Type 0} → ℕ → Streams → Option A → Streams → Type 0
Takes n s o s' = length s'.input + used n o ≤ length s.input

abbrev TakesAll : {A : Type 0} → ℕ → Reads A → Type 0
TakesAll n m = (s : Streams) → Gives (Takes n s) (m s)

bind-Takes :
    {A B : Type 0} (n : ℕ) (m : Reads A) (k : A → Reads B)
    → TakesAll n m
    → ((a : A) → TakesAll 0 (k a))
    → TakesAll n (λ s. bind (m s) (continue_with k))
bind-Takes {A = A} {B = B} n m k h f s =
    bind-Gives (Takes n s) (Takes n s) (m s) (continue_with k) (h s) next
  where
    next : (o : Option A) (s' : Streams) → Takes n s o s' → Gives (Takes n s) (continue_with k o s')
    next none s' t = t
    next (some a) s' t = Gives-map (Takes 0 s') (Takes n s) (k a s') added (f a s')
      where
        added : (o : Option B) (s'' : Streams) → Takes 0 s' o s'' → Takes n s o s''
        added none s'' t' = omega (arith, t, t')
        added (some b) s'' t' = omega (arith, t, t')

abbrev Got : ℕ → Streams → Option (List ℕ) → Streams → Type 0
Got n s none s' = s'.input ≡ s.input
Got n s (some bytes) s' = (bytes ≡ take n s.input) × (s'.input ≡ drop n s.input)

read-Got : (n : ℕ) (s : Streams) → Gives (Got n s) (read n s)
unfolding read
read-Got n s =
    call_with-Gives (Got n s) s.faults _ _ _ s (λ _. refl) (λ _. (refl, refl)) (refl, refl)

take_bytes-Takes : (n : ℕ) → TakesAll n (take_bytes n)
unfolding take_bytes
take_bytes-Takes n s = bind-Gives (Got n s) (Takes n s) (read n s) _ (read-Got n s) taken
  where
    by_length :
        (b : Bool) (bytes : List ℕ) (s' : Streams)
        → (length bytes == n) ≡ b
        → bytes ≡ take n s.input
        → s'.input ≡ drop n s.input
        → Takes n s (if b then some bytes else none) s'
    by_length true bytes s' same e e' =
        let e1 = (==_iff (length bytes) n).0 same in
        omega (arith, e1, ap length e, ap length e', length-take n s.input, length-drop n s.input)
    by_length false bytes s' same e e' = omega (arith, ap length e', length-drop n s.input)

    taken : (o : Option (List ℕ)) (s' : Streams) → Got n s o s' → Takes n s (all_of n o) s'
    taken none s' e = omega (arith, ap length e)
    taken (some bytes) s' (e, e') = by_length (length bytes == n) bytes s' refl e e'

-- What takes `n` takes 0.
at_least : {A : Type 0} (n : ℕ) (m : Reads A) → TakesAll n m → TakesAll 0 m
at_least {A = A} n m h s = Gives-map (Takes n s) (Takes 0 s) (m s) fewer (h s)
  where
    fewer : (o : Option A) (s' : Streams) → Takes n s o s' → Takes 0 s o s'
    fewer none s' t = t
    fewer (some a) s' t = omega (arith, t)

word-Takes : (n : ℕ) → TakesAll n (word n)
unfolding word
word-Takes n = bind-Takes n (take_bytes n) _ (take_bytes-Takes n) (λ bytes s. omega arith)

read_timespec-Takes : TakesAll 0 read_timespec
unfolding read_timespec
read_timespec-Takes =
    at_least 16 _ (bind-Takes 16 (take_bytes 16) _ (take_bytes-Takes 16) (λ bytes s. omega arith))

read_pieces-Takes : (n : ℕ) (path : List ℕ) → TakesAll 0 (read_pieces n path)
unfolding read_pieces
read_pieces-Takes zero path = λ s. omega arith
read_pieces-Takes (suc n) path = at_least max_nm_lth _ (
    bind-Takes max_nm_lth (take_bytes max_nm_lth) _ (take_bytes-Takes max_nm_lth)
      (λ buf. read_pieces-Takes n (path ++ c_string buf)))

read_path-Takes : (len : ℕ) → TakesAll 0 (read_path len)
unfolding read_path
read_path-Takes len = bind-Takes 0 _ _ (read_pieces-Takes (len / max_nm_lth) []) λ path.
    at_least (len % max_nm_lth) _ (
      bind-Takes (len % max_nm_lth) _ _ (take_bytes-Takes (len % max_nm_lth))
        (λ buf s. omega arith))

field-Takes : (n : ℕ) → TakesAll 0 (word n)
field-Takes n = at_least n (word n) (word-Takes n)

read_header-Takes : TakesAll 8 read_header
unfolding read_header
read_header-Takes = bind-Takes 8 _ _ (word-Takes 8) λ file_path_len.
    bind-Takes 0 _ _ (field-Takes 8) λ ln_path_len. bind-Takes 0 _ _ (field-Takes 8) λ st_ino.
      bind-Takes 0 _ _ (field-Takes 4) λ st_mode. bind-Takes 0 _ _ (field-Takes 8) λ st_nlink.
        bind-Takes 0 _ _ (field-Takes 4) λ st_uid. bind-Takes 0 _ _ (field-Takes 4) λ st_gid.
          bind-Takes 0 _ _ read_timespec-Takes λ st_atime.
            bind-Takes 0 _ _ read_timespec-Takes λ st_mtime.
              bind-Takes 0 _ _ (field-Takes 8) λ block_num.
                bind-Takes 0 _ _ (field-Takes 4) λ padding.
                  bind-Takes 0 _ _ (read_path-Takes file_path_len) λ file_path.
                    bind-Takes 0 _ _ (read_path-Takes ln_path_len) λ ln_path s. omega arith

-- A header that is parsed has taken a byte at least.
abbrev pub Shortens : Streams → Parsed → Streams → Type 0
Shortens s (parsed h) s' = length s'.input < length s.input
Shortens s at_end s' = Unit {0}
Shortens s failed s' = Unit {0}

-- The offset of the archive, if it is known.
abbrev IsAt : Streams → Option ℕ → Streams → Type 0
IsAt s none s1 = s1.input ≡ s.input
IsAt s (some n) s1 =
    (n ≡ length s.whole - length s.input) × (s1.input ≡ s.input) × (s1.whole ≡ s.whole)

tell-IsAt : (s : Streams) → Gives (IsAt s) (tell s)
unfolding tell
tell-IsAt s =
    call_with-Gives (IsAt s) s.faults _ _ _ s (λ _. refl) (λ _. (refl, refl, refl))
      (refl, refl, refl)

abbrev AtEnd : Streams → Option ℕ → Streams → Type 0
AtEnd s o s' = (length s'.input ≤ length s.input) × (s'.whole ≡ s.whole)

seek_end-AtEnd : (s : Streams) → Gives (AtEnd s) (seek_end s)
unfolding seek_end
seek_end-AtEnd s =
    call_with-Gives (AtEnd s) s.faults _ _ _ s (λ _. (omega arith, refl)) (λ _. (omega arith, refl))
      (omega arith, refl)

-- Back at the offset that was told, or where the archive stands if the call fails.
abbrev NotBefore : Streams → Unit {0} → Streams → Type 0
NotBefore s a s' = length s'.input ≤ length s.input

seek_set-NotBefore :
    (s s1 s2 : Streams) (o e : Option ℕ)
    → IsAt s o s1
    → AtEnd s1 e s2
    → Gives (NotBefore s) (seek_set o s2)
unfolding seek_set
seek_set-NotBefore s s1 s2 none e h (h', h'') =
    let stays : length s2.input ≤ length s.input = omega (arith, h', ap length h) in
    call_with-Gives (NotBefore s) s2.faults _ _ _ s2 (λ _. stays) (λ _. stays) stays
seek_set-NotBefore s s1 s2 (some n) e (h0, h1, h2) (h', h'') =
    let stays : length s2.input ≤ length s.input = omega (arith, h', ap length h1) in
    let back : length (drop n s2.whole) ≤ length s.input =
      omega (arith, length-drop n s2.whole, h0, ap length h2, ap length h'') in
    call_with-Gives (NotBefore s) s2.faults _ _ _ s2 (λ _. stays) (λ _. back) back

pub deserialize-Shortens : (fd : ℕ) (s : Streams) → Gives (Shortens s) (deserialize (pos fd) s)
unfolding deserialize
deserialize-Shortens fd s = bind-Gives (IsAt s) (Shortens s) (tell s) _ (tell-IsAt s) λ o s1 h.
    bind-Gives (AtEnd s1) (Shortens s) (seek_end s1) _ (seek_end-AtEnd s1)
      λ e s2 h'. compared o s1 e s2 h h' (same_offset o e)
  where
    taken :
        (s3 : Streams)
        → NotBefore s tt s3
        → (o : Option Header) (s4 : Streams) → Takes 8 s3 o s4
        → Shortens s (parsed_or_failed o) s4
    taken s3 h none s4 t = tt
    taken s3 h (some a) s4 t = omega (arith, h, t)

    compared :
        (o : Option ℕ) (s1 : Streams) (e : Option ℕ) (s2 : Streams)
        → IsAt s o s1
        → AtEnd s1 e s2
        → (same : Bool)
        → Gives (Shortens s) (
            if same
            then ok at_end s2
            else bind
                (seek_set o s2)
                λ _ s3. bind (read_header s3) λ h s4. ok (parsed_or_failed h) s4)
    compared o s1 e s2 h h' true = tt
    compared o s1 e s2 h h' false =
        bind-Gives (NotBefore s) (Shortens s) (seek_set o s2) _
          (seek_set-NotBefore s s1 s2 o e h h')
          λ _ s3 near.
            bind-Gives (Takes 8 s3) (Shortens s) (read_header s3) _ (read_header-Takes s3)
              (taken s3 near)
