-- ===== src/Record/Entry.antt =====
-- What a client logs, its bytes in the file, and what a reader with a buffer can read back.
use go_persist.Base.{ℕ, ◌+◌, ◌≤◌, ◌≢◌, List, [], ◌∷◌, ◌++◌, Bytes, length, All}
use go_persist.Record.{Record, set_record, delete_record}

pub data Entry : Type 0 where
  set : Bytes → Bytes → Entry
  delete : Bytes → Entry

-- The bytes that `write` and `Delete` append for it.
unfoldable pub line_bytes : Entry → Bytes
unfolding set_record delete_record
line_bytes (set k v) = set_record k v
line_bytes (delete k) = delete_record k

abbrev pub entry_record : Entry → Record
entry_record (set k v) = record { op = b'S'; key = k; value = v }
entry_record (delete k) = record { op = b'D'; key = k; value = [] }

unfoldable pub log_bytes : List Entry → Bytes
log_bytes [] = []
log_bytes (e ∷ es) = line_bytes e ++ log_bytes es

abbrev pub NoLf : Bytes → Type 0
NoLf = All (λ c. c ≢ b'\n')

abbrev pub entry_key : Entry → Bytes
entry_key (set k v) = k
entry_key (delete k) = k

abbrev pub entry_value : Entry → Bytes
entry_value (set k v) = v
entry_value (delete k) = []

-- Neither line holds a newline, the key is not empty, and each line fits the buffer.
pub record IsReadable (size : ℕ) (e : Entry) : Type 0 where
  pub key_ne_nil : entry_key e ≢ []
  pub key_no_lf : NoLf (entry_key e)
  pub value_no_lf : NoLf (entry_value e)
  pub key_fits : length (entry_key e) + 3 ≤ size
  pub value_fits : length (entry_value e) + 1 ≤ size
