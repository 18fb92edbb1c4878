-- ===== src/Backend/Json.antt =====
-- src/json_parser.cpp: a request is taken apart, an answer is put together. jsoncpp is a parameter.
use data_backup.Base.{ℕ, Bool, true, false, List, [], ◌∷◌, Option, none, some, ℤ, map}
use data_backup.Io.{codes}

-- What the code calls of jsoncpp. `none` is an exception of that library.
pub record Jsoncpp : Type 1 where
  pub Value : Type 0
  -- `root_`, when it has been cleared and a text has been parsed into it.
  pub parse : List ℕ → Value
  -- `value[key]`, `isMember`, `asUInt64`, `asString`
  pub access : Value → List ℕ → Option Value
  pub is_member : Value → List ℕ → Option Bool
  pub as_uint64 : Value → Option ℕ
  pub as_string : Value → Option (List ℕ)
  -- The values that are built, an object from its members as they are assigned, and `StyledWriter`.
  pub uint64 : ℕ → Value
  pub int : ℤ → Value
  pub string : List ℕ → Value
  pub array : List Value → Value
  pub object : List (List ℕ × Value) → Value
  pub write : Value → List ℕ

pub record DirEntry : Type 0 where
  pub m_filename : List ℕ
  pub m_filetype : List ℕ
  pub m_inode : ℕ
  pub m_size : ℕ

-- `JsonParser` without the values of jsoncpp that it keeps.
pub record JsonParser : Type 0 where
  pub method : List ℕ
  pub src : List ℕ
  pub dst : List ℕ
  pub json_str : List ℕ
  pub path : List ℕ
  pub key : List ℕ
  pub seq : ℕ

-- A parser that has just been made: `seq_` is what its memory held.
abbrev pub new_parser : ℕ → JsonParser
new_parser uninit = record {
  method = [];
  src = [];
  dst = [];
  json_str = [];
  path = [];
  key = [];
  seq = uninit;
}

-- Inside the `try` block of `Decode`: `stopped` once jsoncpp has thrown.
pub data Decoding : Type 0 where
  going : JsonParser → Decoding
  stopped : JsonParser → Decoding

abbrev pub then_decode : Decoding → (JsonParser → Decoding) → Decoding
then_decode (going p) f = f p
then_decode (stopped p) f = stopped p

abbrev pub parser_of : Decoding → JsonParser
parser_of (going p) = p
parser_of (stopped p) = p

module _ (j : Jsoncpp) where
  open j use {
    Value, parse, access, is_member, as_uint64, as_string, uint64, int, string, array, object,
    write,
  }

  -- `field = root_[key].as...()`
  abbrev converted : {A : Type 0} → (Value → Option A) → Option Value → Option A
  converted convert none = none
  converted convert (some v) = convert v

  abbrev assigned : {A : Type 0} → (A → JsonParser → JsonParser) → Option A → JsonParser → Decoding
  assigned set none p = stopped p
  assigned set (some a) p = going (set a p)

  unfoldable pub assign :
      {A : Type 0}
      → Value
      → List ℕ
      → (Value → Option A)
      → (A → JsonParser → JsonParser)
      → JsonParser
      → Decoding
  assign root name convert set p = assigned set (converted convert (access root name)) p

  abbrev if_there : Option Bool → Decoding → JsonParser → Decoding
  if_there none d p = stopped p
  if_there (some true) d p = d
  if_there (some false) d p = going p

  -- `if (root_.isMember(key)) field = root_[key].asString();`
  unfoldable pub assign_member :
      Value → List ℕ → (List ℕ → JsonParser → JsonParser) → JsonParser → Decoding
  assign_member root name set p =
      if_there (is_member root name) (assign root name as_string set p) p

  unfoldable pub decode : JsonParser → List ℕ → JsonParser
  decode p input =
      let root = parse input in
      let d1 = assign root (codes "seq") as_uint64 (λ v p. record p { seq = v }) p in
      let d2 =
        then_decode d1 (assign root (codes "method") as_string (λ v p. record p { method = v })) in
      let d3 = then_decode d2 (assign_member root (codes "source") (λ v p. record p { src = v })) in
      let d4 = then_decode d3 (assign_member root (codes "target") (λ v p. record p { dst = v })) in
      let d5 = then_decode d4 (assign_member root (codes "path") (λ v p. record p { path = v })) in
      let d6 = then_decode d5 (assign_member root (codes "key") (λ v p. record p { key = v })) in
      parser_of d6

  unfoldable pub entry_value : DirEntry → Value
  entry_value e = object (
      (codes "filename", string e.m_filename)
      ∷ (codes "filetype", string e.m_filetype)
      ∷ (codes "inode", uint64 e.m_inode)
      ∷ (codes "size", uint64 e.m_size)
      ∷ [])

  abbrev pub trees : List DirEntry → List (List ℕ × Value)
  trees [] = []
  trees (e ∷ es) = (codes "trees", array (map entry_value (e ∷ es))) ∷ []

  -- `Encode(err_code, entries)`
  unfoldable pub encode_entries : JsonParser → ℤ → List DirEntry → JsonParser
  encode_entries p err_code entries = record p {
    json_str =
        write
          (object ((codes "ack", uint64 p.seq) ∷ (codes "errcode", int err_code) ∷ trees entries));
  }

  -- `Encode(err_code, path)`
  unfoldable pub encode_path : JsonParser → ℤ → List ℕ → JsonParser
  encode_path p err_code path = record p {
    json_str = write (
        object (
          (codes "ack", uint64 p.seq)
          ∷ (codes "errcode", int err_code)
          ∷ (codes "pwd", string path)
          ∷ []));
  }
