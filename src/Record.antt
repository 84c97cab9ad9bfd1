-- ===== src/Record.antt =====
-- Records of the write-ahead log (wal.go): the bytes that are written, and `readRecord`.
pub mod Log
pub mod Entry
pub mod RoundTrip
pub mod Damage
pub mod Termination
pub mod Cut
use go_persist.Base.{
  ℕ, zero, suc, ◌≡◌, refl, Bool, true, false, not, List, [], ◌∷◌, ◌++◌, Bytes, ◌==◌, length,
  if◌then◌else◌,
}
use go_persist.Result.{Error, too_short, missing_space, buffer_full, eof}

pub record Record : Type 0 where
  pub op : ℕ
  pub key : Bytes
  pub value : Bytes

-- The lines that `write` and `Delete` append.
unfoldable pub set_record : Bytes → Bytes → Bytes
set_record key line = (b'S' ∷ b' ' ∷ (key ++ (b'\n' ∷ []))) ++ (line ++ (b'\n' ∷ []))

unfoldable pub delete_record : Bytes → Bytes
delete_record key = (b'D' ∷ b' ' ∷ (key ++ (b'\n' ∷ []))) ++ (b'\n' ∷ [])

-- What `ReadSlice('\n')` gives: the line without its newline, with what is unread, or an error.
pub data Slice : Type 0 where
  line : Bytes → Bytes → Slice
  failed : Error → Slice

abbrev pub push : ℕ → Slice → Slice
push c (line l rest) = line (c ∷ l) rest
push c (failed e) = failed e

-- `room` is what is left of the reader's buffer.
unfoldable pub read_slice : ℕ → Bytes → Slice
read_slice zero src = failed buffer_full
read_slice (suc room) [] = failed eof
read_slice (suc room) (c ∷ cs) =
    let more = push c (read_slice room cs) in if c == b'\n' then line [] cs else more

-- The default size of a `bufio.Reader`.
abbrev pub buffer_size : ℕ
buffer_size = 4096

pub data Reading : Type 0 where
  got : Record → Bytes → Reading
  failed : Error → Reading

abbrev read_value : ℕ → Bytes → Slice → Reading
read_value op key (line l rest) = got (record { op = op; key = key; value = l }) rest
read_value op key (failed e) = failed e

-- On the header line.
abbrev read_header : ℕ → Bytes → Bytes → Reading
read_header size (op ∷ space ∷ k ∷ ks) rest =
    if not (space == b' ')
    then failed missing_space
    else read_value op (k ∷ ks) (read_slice size rest)
read_header size _ rest = failed too_short

abbrev read_after : ℕ → Slice → Reading
read_after size (line header rest) = read_header size header rest
read_after size (failed e) = failed e

-- `readRecord`, over a reader with a buffer of `size` bytes.
unfoldable pub read_record : ℕ → Bytes → Reading
read_record size src = read_after size (read_slice size src)
