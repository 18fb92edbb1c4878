-- ===== src/Archive/RoundTrip.antt =====
-- A header that `Serialize` wrote is read back by `DeSerialize`.
use data_backup.Base.{ℕ, ◌≡◌, List, ◌++◌, length, pos}
use data_backup.Io.{ok, streams}
use data_backup.Archive.Header.{Header, serialize, parsed, deserialize}
use data_backup.Archive.Written.{IsSerializable, header_bytes, serialize_lem}
use data_backup.Archive.ReadBack.{deserialize_lem}

-- For every header whose lengths are those of its paths, whose paths have no zero byte and whose
-- words fit: with no failing call `Serialize` appends bytes to what stands before, and
-- `DeSerialize` in front of those bytes returns 0 with that header and the offset behind them,
-- whatever stands before and after.
pub deserialize-serialize :
    (h : Header) (fd fd' : ℕ) (before after out : List ℕ) (o : ℕ)
    → IsSerializable h
    → (bytes : List ℕ) × ((rest whole : List ℕ)
        → serialize h (pos fd) (streams rest whole before (length before))
          ≡ ok (pos 0) (streams rest whole (before ++ bytes) (length (before ++ bytes))))
      × (deserialize (pos fd') (streams (bytes ++ after) (before ++ (bytes ++ after)) out o)
          ≡ ok (parsed h) (streams after (before ++ (bytes ++ after)) out o))
deserialize-serialize h fd fd' before after out o v = (
  header_bytes h,
  λ rest whole. serialize_lem h fd rest whole before v,
  deserialize_lem h fd' before after out o v,
)
