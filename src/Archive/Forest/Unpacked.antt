-- ===== src/Archive/Forest/Unpacked.antt =====
-- src/unpack.cpp: `Extract` on the archive of a directory.
use data_backup.Base.{
  ℕ, zero, suc, ◌<◌, ◌≤◌, ◌≡◌, refl, ap, ◌∙◌, sym, true, false, List, [], ◌∷◌, ◌++◌, length,
  length-append, replicate, append_assoc, ltb, arith, pos,
}
use data_backup.Io.{Outcome, ok, streams}
use data_backup.Archive.Header.{Header, deserialize, parsed}
use data_backup.Archive.Written.{IsSerializable, header_bytes, header-nonempty}
use data_backup.Archive.ReadBack.{deserialize_lem}
use data_backup.Archive.Pack.{is_dir, is_reg, is_fifo, is_lnk}
use data_backup.World.Files.{Target, can_create}
use data_backup.Archive.Tree.{UnpackState, create, target_call}
use data_backup.Archive.Unpack.{
  unpack_dir, unpack_fifo, unpack_slnk, unpack_reg, unpack_one, extract_round, extract_fuel,
  extract,
}
use data_backup.Archive.Regular.{started, HasBlocks, block_bytes, made, make_regular_lem}
use data_backup.Archive.Single.{reg→not_dir, extract_end}
use data_backup.Archive.Forest.{Item, item_bytes, all_bytes}
use data_backup.Archive.Forest.Packed.{fifo→not_reg, lnk→others}
use data_backup.Archive.Forest.Placed.{
  Content, folder, bytes, pipe, link_to, Wanted, placed, placed_all, AreCreatable, can_create-free,
}

-- A header with the bytes behind it tells of a content; a regular file has one link.
abbrev Tells : Header → List ℕ → Content → Type 0
Tells h body folder = (is_dir h.st_mode ≡ true) × (h.padding ≡ 0) × (body ≡ [])
Tells h body (bytes xs) =
    (is_reg h.st_mode ≡ true) × (h.st_nlink ≤ 1) × HasBlocks h body × (body ≡ xs)
Tells h body pipe = (is_fifo h.st_mode ≡ true) × (h.padding ≡ 0) × (body ≡ [])
Tells h body (link_to target) =
    (is_lnk h.st_mode ≡ true) × (h.padding ≡ 0) × (body ≡ []) × (h.ln_path ≡ target)

abbrev pub TellsOf : Item → Wanted → Type 0
TellsOf i w =
    IsSerializable i.header × (i.header.file_path ≡ w.name) × Tells i.header i.body w.content

-- Each item tells of what is wanted at its place.
abbrev pub AllTell : List Item → List Wanted → Type 0
AllTell [] [] = Unit {0}
AllTell [] (w ∷ ws) = ⊥
AllTell (i ∷ is) [] = ⊥
AllTell (i ∷ is) (w ∷ ws) = TellsOf i w × AllTell is ws

pub AllTell-append :
    (is js : List Item) (ws vs : List Wanted)
    → AllTell is ws
    → AllTell js vs
    → AllTell (is ++ js) (ws ++ vs)
AllTell-append [] js [] vs h k = k
AllTell-append [] js (w ∷ ws) vs h k = absurd h
AllTell-append (i ∷ is) js [] vs h k = absurd h
AllTell-append (i ∷ is) js (w ∷ ws) vs (hi, h) k = (hi, AllTell-append is js ws vs h k)

module _ (uninit dir whole : List ℕ) where
  -- What the unpacker does with the data of an item.
  Unpacks : Header → List ℕ → List ℕ → List ℕ → List ℕ → ℕ → Target → Target → Type 0
  Unpacks h body name rest out o t t' =
      (out' : List ℕ) × (o' : ℕ) × (unpack_one uninit dir h
          (started (streams (block_bytes h body ++ rest) whole out o) t)
        ≡ ok tt (started (streams rest whole out' o') t'))

  -- An item without bytes.
  without_bytes :
      (h : Header) (body name rest out : List ℕ) (o : ℕ) (t t' : Target)
      → h.padding ≡ 0
      → body ≡ []
      → unpack_one uninit dir h (started (streams rest whole out o) t)
        ≡ ok tt (started (streams rest whole out o) t')
      → Unpacks h body name rest out o t t'
  unfolding Unpacks
  without_bytes h body name rest out o t t' p b run =
      let none_left : block_bytes h body ++ rest ≡ rest = rw (p, b) refl in
      (
        out,
        o,
        ap (λ bytes. unpack_one uninit dir h (started (streams bytes whole out o) t)) none_left
            ∙ run,
      )

  unpack_item :
      (h : Header) (body name : List ℕ) (c : Content) (rest out : List ℕ) (o : ℕ) (t : Target)
      → h.file_path ≡ name
      → Tells h body c
      → can_create t (dir ++ name) ≡ true
      → Unpacks h body name rest out o t (placed dir (record { name = name; content = c }) t)
  unfolding Unpacks unpack_one unpack_reg unpack_dir unpack_fifo unpack_slnk create target_call
  unpack_item h body name folder rest out o t e (d, p, b) may =
      without_bytes h body name rest out o t _ p b (rw (e, d) (rw may refl))
  unpack_item h body name (bytes xs) rest out o t e (reg, links, blocks, same) may =
      let one : ltb 1 h.st_nlink ≡ false = ground (arith, links) in
      let path = dir ++ h.file_path in
      let may' : can_create t path ≡ true = ap (λ n. can_create t (dir ++ n)) e ∙ may in
      let ended : List ℕ → List ℕ → Outcome UnpackState (Unit {0}) =
        λ n bs. ok tt (started (streams rest whole body (length body)) (made [] (dir ++ n) bs t)) in
      (
        body,
        length body,
        rw (append_assoc body (replicate h.padding 0) rest) (
              rw (reg→not_dir h.st_mode reg, reg)
                (rw one (
                  make_regular_lem uninit h path body rest whole out o t [] []
                    (can_create-free t path may') may' blocks)))
            ∙ ap (λ n. ended n body) e
            ∙ ap (ended name) same,
      )
  unpack_item h body name pipe rest out o t e (f, p, b) may =
      let (d, r) = fifo→not_reg h.st_mode f in
      without_bytes h body name rest out o t _ p b (rw (e, d, r, f) (rw may refl))
  unpack_item h body name (link_to target) rest out o t e (l, p, b, to) may =
      let (d, r, f) = lnk→others h.st_mode l in
      without_bytes h body name rest out o t _ p b (rw (e, d, r, f, l) (rw may (rw to refl)))

  deserialize_at :
      (h : Header) (fd : ℕ) (before after out : List ℕ) (o : ℕ)
      → whole ≡ before ++ (header_bytes h ++ after)
      → IsSerializable h
      → deserialize (pos fd) (streams (header_bytes h ++ after) whole out o)
        ≡ ok (parsed h) (streams after whole out o)
  deserialize_at h fd before after out o e v = rw e (deserialize_lem h fd before after out o v)

  extract_items :
      (fd : ℕ) (is : List Item) (ws : List Wanted) (fuel : ℕ) (before out : List ℕ) (o : ℕ)
      (t : Target)
      → length is < fuel
      → whole ≡ before ++ all_bytes is
      → AllTell is ws
      → AreCreatable dir ws t
      → (out' : List ℕ) × (o' : ℕ) × (extract_fuel uninit fuel fd dir
            (started (streams (all_bytes is) whole out o) t)
          ≡ ok tt (started (streams [] whole out' o') (placed_all dir ws t)))
  unfolding extract_fuel extract_round Unpacks
  extract_items fd [] (w ∷ ws) fuel before out o t lt e v h = absurd v
  extract_items fd (i ∷ is) [] fuel before out o t lt e v h = absurd v
  extract_items fd [] [] fuel before out o t lt e v h =
      (out, o, extract_end uninit dir fd fuel (omega (arith, lt)) whole out o t)
  extract_items fd (i ∷ is) (w ∷ ws) zero before out o t lt e v h = absurd (omega (arith, lt))
  extract_items fd (i ∷ is) (w ∷ ws) (suc fuel) before out o t lt e ((vi, en, tells), v) (may, h) =
      let rest = all_bytes is in
      let split = append_assoc (header_bytes i.header) (block_bytes i.header i.body) rest in
      let (out1, o1, e1) = unpack_item i.header i.body w.name w.content rest out o t en tells may in
      let (out2, o2, e2) =
        extract_items fd is ws fuel (before ++ item_bytes i) out1 o1 (placed dir w t)
          (omega (arith, lt)) (e ∙ sym (append_assoc before (item_bytes i) rest)) v h in
      (
        out2,
        o2,
        rw split (
            rw
              (deserialize_at i.header fd before (block_bytes i.header i.body ++ rest) out o
                (e ∙ ap (λ bs. before ++ bs) split) vi)
              (rw e1 e2)),
      )

items-short : (is : List Item) → length is ≤ length (all_bytes is)
items-short [] = omega arith
items-short (i ∷ is) = omega (
  arith,
  items-short is,
  header-nonempty i.header [],
  length-append (item_bytes i) (all_bytes is),
  length-append (header_bytes i.header) (block_bytes i.header i.body),
)

pub extract_each :
    (uninit dir out : List ℕ) (fd o : ℕ) (is : List Item) (ws : List Wanted) (t : Target)
    → AllTell is ws
    → AreCreatable dir ws t
    → (out' : List ℕ) × (o' : ℕ) × (extract uninit fd dir
          (started (streams (all_bytes is) (all_bytes is) out o) t)
        ≡ ok tt (started (streams [] (all_bytes is) out' o') (placed_all dir ws t)))
unfolding extract
extract_each uninit dir out fd o is ws t v h =
    extract_items uninit dir (all_bytes is) fd is ws (suc (length (all_bytes is))) [] out o t
      (omega (arith, items-short is)) refl v h
