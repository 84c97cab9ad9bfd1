-- ===== src/Record/Damage.antt =====
-- Records that are written and cannot be read back as they were meant.
use go_persist.Base.{
  ℕ, zero, suc, ◌+◌, ◌≤◌, ◌<◌, ◌≡◌, ◌≢◌, refl, sym, ap, ◌∙◌, List, [], ◌∷◌, ◌++◌, map, append_assoc,
  append-nil, arith, Bytes, length, take, All,
}
use mathlib.Core.List.{map-append}
use go_persist.Result.{too_short, buffer_full, reading_failed}
use go_persist.Record.{Record, set_record, read_slice, failed, read_record, buffer_size}
use go_persist.Record.Entry.{Entry, set, line_bytes, log_bytes, entry_record, NoLf, IsReadable}
use go_persist.Record.Log.{at_eof, on_error, read_file}
use go_persist.Record.RoundTrip.{
  read_slice-line, take_append_le, read_file_refused, read_file-log_bytes,
}

pub log_bytes-concat :
    (es : List Entry) (e : Entry) → log_bytes (es ++ e ∷ []) ≡ log_bytes es ++ line_bytes e
unfolding log_bytes
log_bytes-concat [] e = append-nil (line_bytes e)
log_bytes-concat (x ∷ es) e =
    ap (λ (l : Bytes). line_bytes x ++ l) (log_bytes-concat es e)
    ∙ sym (append_assoc (line_bytes x) (log_bytes es) (line_bytes e))

All-concat :
    (es : List Entry) (e : Entry)
    → All (IsReadable buffer_size) es
    → IsReadable buffer_size e
    → All (IsReadable buffer_size) (es ++ e ∷ [])
All-concat [] e h he = (he, tt)
All-concat (x ∷ es) e h he = (h.0, All-concat es e h.1 he)

-- The key under which a record is read that was appended behind a header cut after `n` bytes.
abbrev pub merged_key : ℕ → Bytes → Bytes → Bytes
merged_key n k₀ k = take n k₀ ++ (b'S' ∷ b' ' ∷ k)

torn_then_set :
    (n : ℕ) (k₀ v₀ k v : Bytes)
    → n ≤ length k₀
    → take (suc (suc n)) (line_bytes (set k₀ v₀)) ++ line_bytes (set k v)
      ≡ line_bytes (set (merged_key n k₀ k) v)
unfolding line_bytes
torn_then_set n k₀ v₀ k v h =
    simp append_assoc (rw (take_append_le n k₀ (b'\n' ∷ (v₀ ++ b'\n' ∷ [])) h))

-- Behind a readable log, a set of `k₀` was cut inside its header, after `n` bytes of the key, and a
-- set of `k` was appended after that. If the line that they make is readable, reading the file gives
-- one record for the two, with the key `merged_key n k₀ k`, and none for `k`.
pub read_file_torn_then_set :
    (es : List Entry) (n : ℕ) (k₀ v₀ k v : Bytes)
    → All (IsReadable buffer_size) es
    → n ≤ length k₀
    → IsReadable buffer_size (set (merged_key n k₀ k) v)
    → read_file (log_bytes es ++ (take (n + 2) (line_bytes (set k₀ v₀)) ++ line_bytes (set k v)))
      ≡ record {
        records = map entry_record es ++ entry_record (set (merged_key n k₀ k) v) ∷ [];
        stop = at_eof;
      }
read_file_torn_then_set es n k₀ v₀ k v h cut fits =
    let two : n + 2 ≡ suc (suc n) = omega arith in
    let e : Entry = set (merged_key n k₀ k) v in
    rw (two, torn_then_set n k₀ v₀ k v cut, ← log_bytes-concat es e)
      (read_file-log_bytes (es ++ e ∷ []) (All-concat es e h fits)
        ∙ ap (λ (rs : List Record). record { records = rs; stop = at_eof })
            (map-append entry_record es (e ∷ [])))

read_record_empty_key :
    (size : ℕ) (rest : Bytes)
    → 2 < size
    → read_record size (b'S' ∷ b' ' ∷ b'\n' ∷ rest) ≡ failed too_short
unfolding read_record
read_record_empty_key size rest h =
    rw (read_slice-line size (b'S' ∷ b' ' ∷ []) rest (omega arith) (omega arith))

-- A set of the empty key, behind a readable log: reading the file fails there, whatever follows.
pub read_file_empty_key :
    (es : List Entry) (v rest : Bytes)
    → All (IsReadable buffer_size) es
    → read_file (log_bytes es ++ (set_record [] v ++ rest))
      ≡ record { records = map entry_record es; stop = on_error (reading_failed too_short) }
read_file_empty_key es v rest h =
    read_file_refused es _ too_short h
      (unfold set_record in read_record_empty_key buffer_size _ (omega arith))

read_slice-full :
    (room : ℕ) (l rest : Bytes)
    → NoLf l
    → room ≤ length l
    → read_slice room (l ++ rest) ≡ failed buffer_full
unfolding read_slice
read_slice-full zero l rest h long = refl
read_slice-full (suc room) [] rest h long = absurd (omega arith)
read_slice-full (suc room) (c ∷ l) rest h long =
    ground (arith, h.0, read_slice-full room l rest h.1 (omega arith))

read_record_long_value :
    (size : ℕ) (k v rest : Bytes)
    → k ≢ []
    → NoLf k
    → length k + 3 ≤ size
    → NoLf v
    → size ≤ length v
    → read_record size (b'S' ∷ b' ' ∷ (k ++ (b'\n' ∷ (v ++ rest)))) ≡ failed buffer_full
unfolding read_record
read_record_long_value size [] v rest ne hk fk hv long = absurd (ne refl)
read_record_long_value size (c ∷ k) v rest ne hk fk hv long =
    rw
      (read_slice-line size (b'S' ∷ b' ' ∷ c ∷ k) (v ++ rest) (omega arith, (omega arith, hk))
        (omega arith))
      (rw (read_slice-full size v rest hv long))

-- A set whose value has 4096 bytes or more, and whose key could be read, behind a readable log:
-- reading the file fails there, whatever follows.
pub read_file_long_value :
    (es : List Entry) (k v rest : Bytes)
    → All (IsReadable buffer_size) es
    → k ≢ []
    → NoLf k
    → length k + 3 ≤ buffer_size
    → NoLf v
    → buffer_size ≤ length v
    → read_file (log_bytes es ++ (set_record k v ++ rest))
      ≡ record { records = map entry_record es; stop = on_error (reading_failed buffer_full) }
read_file_long_value es k v rest h ne hk fk hv long = read_file_refused es _ buffer_full h (
    unfold set_record in
    simp append_assoc (read_record_long_value buffer_size k v (b'\n' ∷ rest) ne hk fk hv long))
