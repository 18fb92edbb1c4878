-- ===== src/Io/Loops.antt =====
-- The loops of the handlers over their source: `while(true) { n = read(src_fd_, buf, MAX_BUF_SIZE);
-- if(0 == n) break; if(-1 == n) throw ...; ... }`, and the `for` loop over the bytes of a buffer.
use data_backup.Base.{
  ℕ, zero, suc, ◌≤◌, ◌<◌, ◌%◌, ◌≡◌, refl, ◌∙◌, ap, List, [], ◌∷◌, ◌++◌, Option, none, some, length,
  take, drop, All, append-nil, append_assoc, arith, take-append-drop, length-append, length-take,
  length-drop, All-take, All-drop,
}
use data_backup.Io.Exceptions.{BaseException, ok, stuck, Io, bind, ◌>>=◌, pure, raise}
use data_backup.Io.Descriptors.{Streams, read}

abbrev pub max_buf_size : ℕ
max_buf_size = 4096

module _ {S : Type 0} where
  unfoldable pub for_each : (ℕ → S → Io Streams S) → List ℕ → S → Io Streams S
  for_each body [] s = pure s
  for_each body (x ∷ xs) s = do s' ← body x s; for_each body xs s'

  -- What one round does with the result of its `read`; `again` is the rest of the loop.
  unfoldable pub read_round :
      BaseException
      → (List ℕ → S → Io Streams S)
      → (S → Io Streams S)
      → Option (List ℕ)
      → S
      → Io Streams S
  read_round e body again none s = raise e
  read_round e body again (some []) s = pure s
  read_round e body again (some (b ∷ bs)) s = do s' ← body (b ∷ bs) s; again s'

  -- The loop with fuel, one unit for each round.
  unfoldable pub read_loop_fuel : ℕ → BaseException → (List ℕ → S → Io Streams S) → S → Io Streams S
  unfolding read_round
  read_loop_fuel zero e body s = λ _. stuck
  read_loop_fuel (suc fuel) e body s = do
    chunk ← read max_buf_size
    read_round e body (read_loop_fuel fuel e body) chunk s

  -- Each round takes a byte at least, and one more round meets the end.
  unfoldable pub read_loop : BaseException → (List ℕ → S → Io Streams S) → S → Io Streams S
  unfolding read_loop_fuel
  read_loop e body s io = read_loop_fuel (suc (length io.input)) e body s io

-- The streams with `rest` still to be read and no system call that fails.
abbrev pub streams : List ℕ → List ℕ → List ℕ → ℕ → Streams
streams rest whole out pos = record {
  input = rest;
  whole = whole;
  out = out;
  pos = pos;
  faults = [];
}

-- The invariant rule for both loops, with no failing call. `Inv done s out pos` speaks of the bytes
-- that the loop has taken, its variables, and the destination.
module _ {S : Type 0} (P : ℕ → Type 0) (Inv : List ℕ → S → List ℕ → ℕ → Type 0) (whole : List ℕ)
    (body : ℕ → S → Io Streams S) where
  -- The state after a run of `m` from the state `streams rest whole out pos`, whatever `rest` is.
  abbrev pub Ends : (S → Io Streams S) → S → List ℕ → ℕ → List ℕ → Type 0
  Ends m s out pos done =
      (s' : S) × (out' : List ℕ) × (pos' : ℕ) × Inv done s' out' pos'
      × ((rest : List ℕ) → m s (streams rest whole out pos) ≡ ok s' (streams rest whole out' pos'))

  module _
      (step : (done : List ℕ) (x : ℕ) (s : S) (out : List ℕ) (pos : ℕ)
        → P x
        → Inv done s out pos
        → Ends (body x) s out pos (done ++ x ∷ [])) where
    pub for_each_inv :
        (xs done : List ℕ) (s : S) (out : List ℕ) (pos : ℕ)
        → All P xs
        → Inv done s out pos
        → Ends (for_each body xs) s out pos (done ++ xs)
    unfolding for_each
    for_each_inv [] done s out pos hx h = (s, out, pos, rw append-nil h, λ rest. refl)
    for_each_inv (x ∷ xs) done s out pos (hx, hxs) h =
        let (s1, out1, pos1, h1, e1) = step done x s out pos hx h in
        let (s2, out2, pos2, h2, e2) = for_each_inv xs (done ++ x ∷ []) s1 out1 pos1 hxs h1 in
        (
          s2,
          out2,
          pos2,
          rw append_assoc at h2,
          λ rest. ap (λ o. bind o (for_each body xs)) (e1 rest) ∙ e2 rest,
        )

-- The rule for the read loop: every chunk but the last is a whole buffer.
module _ {S : Type 0} (P : ℕ → Type 0) (Inv : List ℕ → S → List ℕ → ℕ → Type 0) (whole : List ℕ)
    (body : List ℕ → S → Io Streams S) (e : BaseException)
    (step : (done c : List ℕ) (s : S) (out : List ℕ) (pos : ℕ)
      → All P c
      → length done % max_buf_size ≡ 0
      → length c ≤ max_buf_size
      → Inv done s out pos
      → (s' : S) × (out' : List ℕ) × (pos' : ℕ) × Inv (done ++ c) s' out' pos'
        × ((rest : List ℕ)
            → body c s (streams rest whole out pos) ≡ ok s' (streams rest whole out' pos'))) where
  read_loop_fuel_inv :
      (fuel : ℕ) (rest done : List ℕ) (s : S) (out : List ℕ) (pos : ℕ)
      → length rest < fuel
      → All P rest
      → (0 < length rest → length done % max_buf_size ≡ 0)
      → Inv done s out pos
      → (s' : S) × (out' : List ℕ) × (pos' : ℕ) × Inv (done ++ rest) s' out' pos'
        × (read_loop_fuel fuel e body s (streams rest whole out pos)
            ≡ ok s' (streams [] whole out' pos'))
  unfolding read_loop_fuel read
  read_loop_fuel_inv zero rest done s out pos lt all aligned h = absurd (omega arith)
  read_loop_fuel_inv (suc fuel) [] done s out pos lt all aligned h =
      (s, out, pos, rw append-nil h, refl)
  read_loop_fuel_inv (suc fuel) (b ∷ bs) done s out pos lt (hb, hbs) aligned h =
      let c : List ℕ = b ∷ take 4095 bs in
      let rest : List ℕ = drop 4095 bs in
      let (s1, out1, pos1, h1, e1) =
        step done c s out pos (hb, All-take P 4095 bs hbs) (aligned (omega arith))
          (omega (arith, length-take 4095 bs)) h in
      let (s2, out2, pos2, h2, e2) =
        read_loop_fuel_inv fuel rest (done ++ c) s1 out1 pos1 (omega (arith, length-drop 4095 bs))
          (All-drop P 4095 bs hbs)
          (omega (
            arith,
            aligned (omega arith),
            length-append done c,
            length-take 4095 bs,
            length-drop 4095 bs,
          ))
          h1 in
      (
        s2,
        out2,
        pos2,
        rw (append_assoc, take-append-drop 4095 bs) at h2,
        ap (λ o. bind o (read_loop_fuel fuel e body)) (e1 rest) ∙ e2,
      )

  -- From the start of the loop: the whole rest of the source is read.
  pub read_loop_inv :
      (rest : List ℕ) (s : S) (out : List ℕ) (pos : ℕ)
      → All P rest
      → Inv [] s out pos
      → (s' : S) × (out' : List ℕ) × (pos' : ℕ) × Inv rest s' out' pos'
        × (read_loop e body s (streams rest whole out pos) ≡ ok s' (streams [] whole out' pos'))
  unfolding read_loop
  read_loop_inv rest s out pos all h =
      read_loop_fuel_inv (suc (length rest)) rest [] s out pos (omega arith) all (λ _. refl) h
