-- ===== src/Record/Termination.antt =====
-- The reading loop ends on every file.
use go_persist.Base.{
  ℕ, zero, suc, ◌+◌, ◌<◌, ◌≡◌, ◌≢◌, refl, [], ◌∷◌, arith, Bytes, length, ◌==◌, Bool-cases, inl, inr,
}
use go_persist.Result.{Error, eof}
use go_persist.Record.{
  Slice, line, push, read_slice, Reading, got, failed, read_record, read_after, read_header,
  read_value, buffer_size,
}
use go_persist.Record.Log.{read_log, read_file, no_fuel, ended}

-- A line takes its bytes and its newline from the source.
abbrev Shorter : Bytes → Slice → Type 0
Shorter src (line l rest) = length rest < length src
Shorter src (failed e) = Unit

push-Shorter : (c : ℕ) (cs : Bytes) (s : Slice) → Shorter cs s → Shorter (c ∷ cs) (push c s)
push-Shorter c cs (line l rest) h = omega arith
push-Shorter c cs (failed e) h = tt

read_slice-Shorter : (room : ℕ) (src : Bytes) → Shorter src (read_slice room src)
unfolding read_slice
read_slice-Shorter zero src = tt
read_slice-Shorter (suc room) [] = tt
read_slice-Shorter (suc room) (c ∷ cs) = elim (Bool-cases (c == b'\n')) [
  | inl e ↦ rw e (omega arith)
  | inr e ↦ rw e (push-Shorter c cs (read_slice room cs) (read_slice-Shorter room cs))
]

abbrev Consumes : ℕ → Reading → Type 0
Consumes n (got r rest) = length rest < n
Consumes n (failed e) = Unit

read_value-Consumes :
    (n op : ℕ) (key src : Bytes) (s : Slice)
    → length src < n
    → Shorter src s
    → Consumes n (read_value op key s)
read_value-Consumes n op key src (line l rest) h k = omega arith
read_value-Consumes n op key src (failed e) h k = tt

read_header-Consumes :
    (size n : ℕ) (header rest : Bytes) → length rest < n → Consumes n (read_header size header rest)
read_header-Consumes size n [] rest h = tt
read_header-Consumes size n (a ∷ []) rest h = tt
read_header-Consumes size n (a ∷ b ∷ []) rest h = tt
read_header-Consumes size n (op ∷ space ∷ k ∷ ks) rest h = elim (Bool-cases (space == b' ')) [
  | inl e ↦ rw e (
      read_value-Consumes n op (k ∷ ks) rest (read_slice size rest) h
        (read_slice-Shorter size rest))
  | inr e ↦ rw e tt
]

read_after-Consumes :
    (size : ℕ) (src : Bytes) (s : Slice) → Shorter src s → Consumes (length src) (read_after size s)
read_after-Consumes size src (line l rest) h = read_header-Consumes size (length src) l rest h
read_after-Consumes size src (failed e) h = tt

read_record-Consumes : (size : ℕ) (src : Bytes) → Consumes (length src) (read_record size src)
unfolding read_record
read_record-Consumes size src =
    read_after-Consumes size src (read_slice size src) (read_slice-Shorter size src)

ended-ne-no_fuel : (e : Error) → ended e ≢ no_fuel
ended-ne-no_fuel eof = λ p. cc
ended-ne-no_fuel _ = λ p. cc

read_log-ne-no_fuel :
    (size fuel : ℕ) (src : Bytes) → length src < fuel → (read_log size fuel src).stop ≢ no_fuel
unfolding read_log
read_log-ne-no_fuel size zero src h = absurd (omega arith)
read_log-ne-no_fuel size (suc fuel) src h =
    go (read_record size src) (read_record-Consumes size src)
      (λ rest lt. read_log-ne-no_fuel size fuel rest (omega arith)) refl
  where
    go :
        (r : Reading)
        → Consumes (length src) r
        → ((rest : Bytes) → length rest < length src → (read_log size fuel rest).stop ≢ no_fuel)
        → read_record size src ≡ r
        → (read_log size (suc fuel) src).stop ≢ no_fuel
    go (got r rest) c ih e = rw (e, read_log) (ih rest c)
    go (failed x) c ih e = rw (e, read_log) (ended-ne-no_fuel x)

-- Whatever the file holds, the loop over its records ends by the end of the file or by an error.
pub read_file-ne-no_fuel : (src : Bytes) → (read_file src).stop ≢ no_fuel
unfolding read_file
read_file-ne-no_fuel src = read_log-ne-no_fuel buffer_size (length src + 1) src (omega arith)
