-- ===== src/Record/RoundTrip.antt =====
-- What is written is read back, and a torn last record is dropped.
use go_persist.Base.{
  ℕ, zero, suc, ◌+◌, ◌≤◌, ◌<◌, ◌≡◌, ◌≢◌, refl, ap, List, [], ◌∷◌, ◌++◌, map, append_assoc,
  append-nil, arith, Bytes, length, take, All, length-append, dec_le, ◌-◌,
}
use go_persist.Result.{Error, eof}
use go_persist.Record.{line, read_slice, got, failed, read_record, buffer_size}
use go_persist.Record.Entry.{
  Entry, set, delete, line_bytes, log_bytes, entry_record, entry_key, entry_value, NoLf, IsReadable,
}
use go_persist.Record.Log.{at_eof, read_log, read_file, before, ended}

pub read_slice-line :
    (room : ℕ) (l rest : Bytes)
    → NoLf l
    → length l < room
    → read_slice room (l ++ (b'\n' ∷ rest)) ≡ line l rest
unfolding read_slice
read_slice-line zero l rest h fits = absurd (omega arith)
read_slice-line (suc room) [] rest h fits = refl
read_slice-line (suc room) (c ∷ l) rest h fits =
    ground (arith, h.0, read_slice-line room l rest h.1 (omega arith))

read_slice-eof : (room : ℕ) (l : Bytes) → NoLf l → length l < room → read_slice room l ≡ failed eof
unfolding read_slice
read_slice-eof zero l h fits = absurd (omega arith)
read_slice-eof (suc room) [] h fits = refl
read_slice-eof (suc room) (c ∷ l) h fits =
    ground (arith, h.0, read_slice-eof room l h.1 (omega arith))

-- A set or delete record, up to its second newline, is read as that record.
read_record_lines :
    (size op : ℕ) (k v rest : Bytes)
    → k ≢ []
    → NoLf k
    → NoLf v
    → length k + 3 ≤ size
    → length v + 1 ≤ size
    → op ≢ b'\n'
    → read_record size (op ∷ b' ' ∷ (k ++ (b'\n' ∷ (v ++ (b'\n' ∷ rest)))))
      ≡ got (record { op = op; key = k; value = v }) rest
unfolding read_record
read_record_lines size op [] v rest ne hk hv fk fv ho = absurd (ne refl)
read_record_lines size op (c ∷ k) v rest ne hk hv fk fv ho =
    rw
      (read_slice-line size (op ∷ b' ' ∷ c ∷ k) (v ++ (b'\n' ∷ rest)) (ho, (omega arith, hk))
        (omega arith))
      (rw (read_slice-line size v rest hv (omega arith)))

read_record-line_bytes :
    (size : ℕ) (e : Entry) (rest : Bytes)
    → IsReadable size e
    → read_record size (line_bytes e ++ rest) ≡ got (entry_record e) rest
unfolding line_bytes
read_record-line_bytes size (set k v) rest h = simp append_assoc (
    read_record_lines size b'S' k v rest h.key_ne_nil h.key_no_lf h.value_no_lf h.key_fits
      h.value_fits (omega arith))
read_record-line_bytes size (delete k) rest h = simp append_assoc (
    read_record_lines size b'D' k [] rest h.key_ne_nil h.key_no_lf tt h.key_fits h.value_fits
      (omega arith))

-- A prefix of a record that lacks its last newline ends the reading as a clean end of file.
pub take_append_le : (n : ℕ) (xs ys : Bytes) → n ≤ length xs → take n (xs ++ ys) ≡ take n xs
take_append_le zero xs ys h = refl
take_append_le (suc n) [] ys h = absurd (omega arith)
take_append_le (suc n) (x ∷ xs) ys h = ap (◌∷◌ x) (take_append_le n xs ys (omega arith))

pub take_append_ge :
    (n : ℕ) (xs ys : Bytes) → length xs ≤ n → take n (xs ++ ys) ≡ xs ++ take (n - length xs) ys
take_append_ge n [] ys h = let e : n - 0 ≡ n = omega arith in rw e
take_append_ge zero (x ∷ xs) ys h = absurd (omega arith)
take_append_ge (suc n) (x ∷ xs) ys h =
    let e : suc n - suc (length xs) ≡ n - length xs = omega arith in
    rw e (ap (◌∷◌ x) (take_append_ge n xs ys (omega arith)))

take-NoLf : (n : ℕ) (xs : Bytes) → NoLf xs → NoLf (take n xs)
take-NoLf zero xs h = tt
take-NoLf (suc n) [] h = tt
take-NoLf (suc n) (x ∷ xs) h = (h.0, take-NoLf n xs h.1)

length-take_le : (n : ℕ) (xs : Bytes) → length (take n xs) ≤ length xs
length-take_le zero xs = omega arith
length-take_le (suc n) [] = omega arith
length-take_le (suc n) (x ∷ xs) = omega (arith, length-take_le n xs)

read_slice-torn :
    (size n : ℕ) (l rest : Bytes)
    → NoLf l
    → length l < size
    → n ≤ length l
    → read_slice size (take n (l ++ rest)) ≡ failed eof
read_slice-torn size n l rest h fits short =
    rw (take_append_le n l rest short)
      (read_slice-eof size (take n l) (take-NoLf n l h) (omega (arith, length-take_le n l)))

-- Cut after the header's newline.
read_record_torn_value :
    (size op c m : ℕ) (k v rest : Bytes)
    → op ≢ b'\n'
    → NoLf (c ∷ k)
    → NoLf v
    → length k + 4 ≤ size
    → length v < size
    → m ≤ length v
    → read_record size ((op ∷ b' ' ∷ c ∷ k) ++ (b'\n' ∷ take m (v ++ rest))) ≡ failed eof
unfolding read_record
read_record_torn_value size op c m k v rest ho hk hv fk fv short =
    rw
      (read_slice-line size (op ∷ b' ' ∷ c ∷ k) (take m (v ++ rest)) (ho, (omega arith, hk))
        (omega arith))
      (rw (read_slice-torn size m v rest hv fv short))

-- Cut anywhere before the second newline.
read_record_torn :
    (size op n : ℕ) (k v : Bytes)
    → op ≢ b'\n'
    → k ≢ []
    → NoLf k
    → NoLf v
    → length k + 3 ≤ size
    → length v + 1 ≤ size
    → n < length k + length v + 4
    → read_record size (take n (op ∷ b' ' ∷ (k ++ (b'\n' ∷ (v ++ (b'\n' ∷ [])))))) ≡ failed eof
read_record_torn size op n [] v ho ne hk hv fk fv short = absurd (ne refl)
read_record_torn size op n (c ∷ k) v ho ne hk hv fk fv short =
    let h : Bytes = op ∷ b' ' ∷ c ∷ k in
    let body : Bytes = b'\n' ∷ (v ++ (b'\n' ∷ [])) in
    elim (dec_le n (length h)) [
      | yes p ↦
          unfold read_record in
          rw (read_slice-torn size n h body (ho, (omega arith, hk)) (omega arith) p)
      | no p ↦
          let e : n - length h ≡ suc (n - length h - 1) = omega arith in
          rw (take_append_ge n h body (omega arith), e)
            (read_record_torn_value size op c (n - length h - 1) k v (b'\n' ∷ []) ho hk hv
              (omega arith) (omega arith) (omega arith))
    ]

pub length-line_bytes :
    (e : Entry) → length (line_bytes e) ≡ length (entry_key e) + length (entry_value e) + 4
unfolding line_bytes
length-line_bytes (set k v) = omega (
  arith,
  length-append {0} (k ++ b'\n' ∷ []) (v ++ b'\n' ∷ []),
  length-append {0} k (b'\n' ∷ []),
  length-append {0} v (b'\n' ∷ []),
)
length-line_bytes (delete k) =
    omega
      (arith, length-append {0} (k ++ b'\n' ∷ []) (b'\n' ∷ []), length-append {0} k (b'\n' ∷ []))

pub read_record-torn :
    (size n : ℕ) (e : Entry)
    → IsReadable size e
    → n < length (line_bytes e)
    → read_record size (take n (line_bytes e)) ≡ failed eof
unfolding line_bytes
read_record-torn size n (set k v) h short = simp append_assoc (
    read_record_torn size b'S' n k v (omega arith) h.key_ne_nil h.key_no_lf h.value_no_lf h.key_fits
      h.value_fits (omega (arith, length-line_bytes (set k v))))
read_record-torn size n (delete k) h short = simp append_assoc (
    read_record_torn size b'D' n k [] (omega arith) h.key_ne_nil h.key_no_lf tt h.key_fits
      h.value_fits (omega (arith, length-line_bytes (delete k))))

length-log_bytes : (es : List Entry) → length es ≤ length (log_bytes es)
unfolding log_bytes
length-log_bytes [] = omega arith
length-log_bytes (e ∷ es) = omega (
  arith,
  length-log_bytes es,
  length-append {0} (line_bytes e) (log_bytes es),
  length-line_bytes e,
)

-- The reading of a log whose records are `es`, and whose rest is refused with the error `x`.
pub read_log-log_bytes :
    (size fuel : ℕ) (es : List Entry) (tail : Bytes) (x : Error)
    → All (IsReadable size) es
    → read_record size tail ≡ failed x
    → length es < fuel
    → read_log size fuel (log_bytes es ++ tail)
      ≡ record { records = map entry_record es; stop = ended x }
unfolding read_log log_bytes
read_log-log_bytes size zero es tail x h refused enough = absurd (omega arith)
read_log-log_bytes size (suc fuel) [] tail x h refused enough = rw (refused, read_log)
read_log-log_bytes size (suc fuel) (e ∷ es) tail x h refused enough =
    rw (append_assoc (line_bytes e) (log_bytes es) tail) (
      rw (read_record-line_bytes size e (log_bytes es ++ tail) h.0, read_log)
        (ap (before (entry_record e))
          (read_log-log_bytes size fuel es tail x h.1 refused (omega arith))))

-- The same for the whole file.
pub read_file_refused :
    (es : List Entry) (tail : Bytes) (x : Error)
    → All (IsReadable buffer_size) es
    → read_record buffer_size tail ≡ failed x
    → read_file (log_bytes es ++ tail) ≡ record { records = map entry_record es; stop = ended x }
unfolding read_file
read_file_refused es tail x h refused =
    read_log-log_bytes buffer_size _ es tail x h refused
      (omega (arith, length-log_bytes es, length-append {0} (log_bytes es) tail))

pub read_record_nil : (size : ℕ) → 0 < size → read_record size [] ≡ failed eof
unfolding read_record read_slice
read_record_nil zero h = absurd (omega arith)
read_record_nil (suc size) h = refl

-- Reading a log gives back the sequence of records that were appended to it, in order, and ends
-- at the end of the file, if each record is readable.
pub read_file-log_bytes :
    (es : List Entry)
    → All (IsReadable buffer_size) es
    → read_file (log_bytes es) ≡ record { records = map entry_record es; stop = at_eof }
read_file-log_bytes es h =
    rw (← append-nil (log_bytes es))
      (read_file_refused es [] eof h (read_record_nil buffer_size (omega arith)))

-- A log of readable records, the last of which is cut at any byte before its end, is read as the
-- records before it, with no error.
pub read_file_torn :
    (es : List Entry) (e : Entry) (n : ℕ)
    → All (IsReadable buffer_size) es
    → IsReadable buffer_size e
    → n < length (line_bytes e)
    → read_file (log_bytes es ++ take n (line_bytes e))
      ≡ record { records = map entry_record es; stop = at_eof }
read_file_torn es e n h he short =
    read_file_refused es _ eof h (read_record-torn buffer_size n e he short)
