-- ===== src/Archive/Forest/Placed.antt =====
-- src/unpack.cpp: the files that stand below the target once the items of an archive have been unpacked.
use data_backup.Base.{
  ℕ, ◌<◌, ◌≡◌, refl, ap, ◌∙◌, Bool, true, false, List, [], ◌∷◌, ◌++◌, Option, some, none, All,
  str_eq, str_eq_refl, str_eq→≡, Bool-cases, inl, inr, ◌==◌, ==_iff, arith, ◌&&◌,
}
use data_backup.Io.{is_failure}
use data_backup.World.Files.{
  Entry, directory, regular, fifo, symbolic, Target, can_create, add_entry,
}
use data_backup.Archive.Regular.{made}
use data_backup.Archive.Forest.{
  Leaf, regular_file, fifo_file, link_file, Forest, done, passed, leaf, sub, child_path,
}

-- What a name below the target is to name.
pub data Content : Type 0 where
  folder : Content
  bytes : List ℕ → Content
  pipe : Content
  link_to : List ℕ → Content

pub record Wanted : Type 0 where
  pub name : List ℕ
  pub content : Content

abbrev pub content_of : Leaf → Content
content_of (regular_file st xs) = bytes xs
content_of (fifo_file st) = pipe
content_of (link_file st target) = link_to target

-- The names below a directory, each after the name of the directory and a slash.
abbrev pub wanted : List ℕ → Forest → List Wanted
wanted base done = []
wanted base (passed name f) = wanted base f
wanted base (leaf name l f) =
    record { name = child_path base name; content = content_of l } ∷ wanted base f
wanted base (sub name st g f) =
    record { name = child_path base name; content = folder }
    ∷ (wanted (child_path base name) g ++ wanted base f)

abbrev put : List ℕ → Content → Target → Target
put path folder t = add_entry path directory t
put path (bytes xs) t = made [] path xs t
put path pipe t = add_entry path fifo t
put path (link_to target) t = add_entry path (symbolic target) t

abbrev pub placed : List ℕ → Wanted → Target → Target
placed dir w t = put (dir ++ w.name) w.content t

abbrev pub placed_all : List ℕ → List Wanted → Target → Target
placed_all dir [] t = t
placed_all dir (w ∷ ws) t = placed_all dir ws (placed dir w t)

-- Each name is free in a directory when its turn comes.
abbrev pub AreCreatable : List ℕ → List Wanted → Target → Type 0
AreCreatable dir [] t = Unit {0}
AreCreatable dir (w ∷ ws) t =
    (can_create t (dir ++ w.name) ≡ true) × AreCreatable dir ws (placed dir w t)

-- The path names what it is to name, and a regular file holds its bytes.
abbrev Names : Target → List ℕ → Content → Type 0
Names t path folder = t.entry path ≡ some directory
Names t path (bytes xs) =
    (ino : ℕ) × (t.entry path ≡ some (regular ino)) × (t.contents ino ≡ xs) × (ino < t.next_ino)
Names t path pipe = t.entry path ≡ some fifo
Names t path (link_to target) = t.entry path ≡ some (symbolic target)

abbrev pub HasWanted : List ℕ → Target → Wanted → Type 0
HasWanted dir t w = Names t (dir ++ w.name) w.content

pub can_create-free : (t : Target) (path : List ℕ) → can_create t path ≡ true → t.entry path ≡ none
can_create-free t path h = free (t.entry path) _ h
  where
    free : (o : Option Entry) (b : Bool) → (is_failure o && b) ≡ true → o ≡ none
    free none b h = refl
    free (some e) b h = absurd (grind (arith, h))

put-Names : (path : List ℕ) (c : Content) (t : Target) → Names (put path c t) path c
put-Names path folder t = rw (str_eq_refl path) refl
put-Names path (bytes xs) t = (
  t.next_ino,
  rw (str_eq_refl path) refl,
  rw ((==_iff t.next_ino t.next_ino).1 refl) refl,
  omega arith,
)
put-Names path pipe t = rw (str_eq_refl path) refl
put-Names path (link_to target) t = rw (str_eq_refl path) refl

-- What a name names stays, if the new name is free.
put-entry :
    (new : List ℕ) (c : Content) (t : Target) (path : List ℕ) (e : Entry)
    → can_create t new ≡ true
    → t.entry path ≡ some e
    → (put new c t).entry path ≡ some e
put-entry new c t path e may h = elim (Bool-cases (str_eq path new)) [
  | inl same ↦
      let gone = ap t.entry (str_eq→≡ path new same) ∙ can_create-free t new may in
      absurd (grind (arith, h, gone))
  | inr apart ↦ beside c apart
]
  where
    beside : (c : Content) → str_eq path new ≡ false → (put new c t).entry path ≡ some e
    beside folder apart = rw apart h
    beside (bytes xs) apart = rw apart h
    beside pipe apart = rw apart h
    beside (link_to target) apart = rw apart h

-- Older files keep their bytes.
put-contents :
    (new : List ℕ) (c : Content) (t : Target) (ino : ℕ)
    → ino < t.next_ino
    → ((put new c t).contents ino ≡ t.contents ino) × (ino < (put new c t).next_ino)
put-contents new folder t ino lt = (refl, lt)
put-contents new (bytes xs) t ino lt =
    let older : (ino == t.next_ino) ≡ false = ground (arith, lt) in
    (rw older refl, omega (arith, lt))
put-contents new pipe t ino lt = (refl, lt)
put-contents new (link_to target) t ino lt = (refl, lt)

put-keeps :
    (new : List ℕ) (c : Content) (t : Target) (path : List ℕ) (d : Content)
    → can_create t new ≡ true
    → Names t path d
    → Names (put new c t) path d
put-keeps new c t path folder may h = put-entry new c t path directory may h
put-keeps new c t path (bytes xs) may (ino, h, held, lt) =
    let (same, lt') = put-contents new c t ino lt in
    (ino, put-entry new c t path (regular ino) may h, same ∙ held, lt')
put-keeps new c t path pipe may h = put-entry new c t path fifo may h
put-keeps new c t path (link_to target) may h = put-entry new c t path (symbolic target) may h

placed_all-keeps :
    (dir : List ℕ) (ws : List Wanted) (w : Wanted) (t : Target)
    → AreCreatable dir ws t
    → HasWanted dir t w
    → HasWanted dir (placed_all dir ws t) w
placed_all-keeps dir [] w t h k = k
placed_all-keeps dir (v ∷ ws) w t (may, h) k =
    placed_all-keeps dir ws w (placed dir v t) h
      (put-keeps (dir ++ v.name) v.content t (dir ++ w.name) w.content may k)

pub placed_all-HasWanted :
    (dir : List ℕ) (ws : List Wanted) (t : Target)
    → AreCreatable dir ws t
    → All (HasWanted dir (placed_all dir ws t)) ws
placed_all-HasWanted dir [] t h = tt
placed_all-HasWanted dir (w ∷ ws) t (may, h) = (
  placed_all-keeps dir ws w (placed dir w t) h (put-Names (dir ++ w.name) w.content t),
  placed_all-HasWanted dir ws (placed dir w t) h,
)
