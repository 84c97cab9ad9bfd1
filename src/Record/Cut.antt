-- ===== src/Record/Cut.antt =====
-- A log that is cut at any byte: what a power failure leaves of it.
use go_persist.Base.{
  ℕ, ◌-◌, ◌≤◌, ◌≡◌, refl, sym, ap, ◌∙◌, List, [], ◌∷◌, ◌++◌, map, append_assoc, arith, Bytes,
  length, length-append, take, take_all, All, leb, if◌then◌else◌, Bool-cases, inl, inr, true,
}
use go_persist.Result.{eof}
use go_persist.Record.{read_record, failed, buffer_size}
use go_persist.Record.Entry.{Entry, line_bytes, log_bytes, entry_record, IsReadable}
use go_persist.Record.Log.{at_eof, read_file}
use go_persist.Record.RoundTrip.{
  read_file_refused, read_record-torn, read_record_nil, take_append_le, take_append_ge,
}

-- The leading entries whose bytes all stand among the first `n`.
unfoldable pub fitting : ℕ → List Entry → List Entry
fitting n [] = []
fitting n (e ∷ es) =
    let more = e ∷ fitting (n - length (line_bytes e)) es in
    if leb (length (line_bytes e)) n then more else []

pub fitting-All {κ} :
    (P : Entry → Type κ) (n : ℕ) (es : List Entry) → All P es → All P (fitting n es)
unfolding fitting
fitting-All P n [] h = tt
fitting-All P n (e ∷ es) h = elim (Bool-cases (leb (length (line_bytes e)) n)) [
  | inl fits ↦ rw fits (h.0, fitting-All P (n - length (line_bytes e)) es h.1)
  | inr cut ↦ rw cut tt
]

-- What is left behind them is no record.
abbrev Cut : ℕ → List Entry → Type 0
Cut n es =
    (tail : Bytes) × (take n (log_bytes es) ≡ log_bytes (fitting n es) ++ tail)
    × (read_record buffer_size tail ≡ failed eof)

take-log_bytes : (n : ℕ) (es : List Entry) → All (IsReadable buffer_size) es → Cut n es
unfolding fitting log_bytes
take-log_bytes n [] h = ([], take_all n [] (omega arith), read_record_nil buffer_size (omega arith))
take-log_bytes n (e ∷ es) h = elim (Bool-cases (leb (length (line_bytes e)) n)) [
  | inl fits ↦
      let (tail, form, refused) = take-log_bytes (n - length (line_bytes e)) es h.1 in
      (
        tail,
        rw fits (
            take_append_ge n (line_bytes e) (log_bytes es) (ground arith)
            ∙ ap (λ (b : Bytes). line_bytes e ++ b) form
            ∙ sym (
                append_assoc (line_bytes e) (log_bytes (fitting (n - length (line_bytes e)) es))
                  tail)),
        refused,
      )
  | inr cut ↦ (
    take n (line_bytes e),
    rw cut (take_append_le n (line_bytes e) (log_bytes es) (ground arith)),
    read_record-torn buffer_size n e h.0 (ground arith),
  )
]

-- A log of readable records that is cut behind `n` bytes is read as the records that stand whole
-- among them, in order, with no error.
pub read_file-take :
    (n : ℕ) (es : List Entry)
    → All (IsReadable buffer_size) es
    → read_file (take n (log_bytes es))
      ≡ record { records = map entry_record (fitting n es); stop = at_eof }
read_file-take n es h =
    let (tail, form, refused) = take-log_bytes n es h in
    rw form (
      read_file_refused (fitting n es) tail eof (fitting-All (IsReadable buffer_size) n es h)
        refused)

-- Entries that stand whole among the first `n` bytes are not lost.
pub fitting-append :
    (n : ℕ) (es fs : List Entry)
    → length (log_bytes es) ≤ n
    → fitting n (es ++ fs) ≡ es ++ fitting (n - length (log_bytes es)) fs
unfolding fitting log_bytes
fitting-append n [] fs h = let e : n - 0 ≡ n = omega arith in rw e
fitting-append n (e ∷ es) fs h =
    let fits : leb (length (line_bytes e)) n ≡ true =
      ground (arith, length-append {0} (line_bytes e) (log_bytes es)) in
    let k : n - length (line_bytes e) - length (log_bytes es)
        ≡ n - length (line_bytes e ++ log_bytes es) =
      omega (arith, length-append {0} (line_bytes e) (log_bytes es)) in
    rw fits (
      ap (◌∷◌ e) (
        fitting-append (n - length (line_bytes e)) es fs
          (omega (arith, length-append {0} (line_bytes e) (log_bytes es)))
        ∙ rw k))

-- Entries are lost from the end only.
pub fitting-prefix : (n : ℕ) (es : List Entry) → (lost : List Entry) × (es ≡ fitting n es ++ lost)
unfolding fitting
fitting-prefix n [] = ([], refl)
fitting-prefix n (e ∷ es) = elim (Bool-cases (leb (length (line_bytes e)) n)) [
  | inl fits ↦
      let (lost, form) = fitting-prefix (n - length (line_bytes e)) es in
      (lost, rw fits (ap (◌∷◌ e) form))
  | inr cut ↦ (e ∷ es, rw cut)
]
