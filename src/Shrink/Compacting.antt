-- ===== src/Shrink/Compacting.antt =====
-- The temporary file of `Shrink`, while no call of the operating system fails.
use mathlib.Core.Path.{subst₂}
use go_persist.Base.{
  ℕ, ◌+◌, ◌%◌, ◌≡◌, refl, sym, ap, ◌∙◌, Bool, true, some, List, [], ◌∷◌, ◌++◌, Bytes, append_assoc,
  append-nil, length, length-append, arith, Bool-cases, equal, equal_iff, false, codes, inl, inr,
}
use go_persist.Env.XsyncMap.{XsyncMap}
use go_persist.Env.Json.{Json}
use go_persist.Env.Os
use go_persist.Env.Os.{Os, File, Handle, at}
use go_persist.Record.Entry.{Entry, line_bytes, log_bytes}
use go_persist.Result.{ok}
use go_persist.Shrink.{Shrinking, Go, ◌>>◌, tmp_path, call, settle_call, count}
use go_persist.State.{Store}
use go_persist.Wal.{add32, int32_mod}

pub log_bytes-append : (es fs : List Entry) → log_bytes (es ++ fs) ≡ log_bytes es ++ log_bytes fs
unfolding log_bytes
log_bytes-append [] fs = refl
log_bytes-append (e ∷ es) fs =
    ap (λ (b : Bytes). line_bytes e ++ b) (log_bytes-append es fs)
    ∙ sym (append_assoc (line_bytes e) (log_bytes es) (log_bytes fs))

pub append-log_nil : (c : Bytes) → c ≡ c ++ log_bytes []
unfolding log_bytes
append-log_nil c = sym (append-nil c)

pub add32_mods : (a b : ℕ) → add32 (a % int32_mod) (b % int32_mod) ≡ (a + b) % int32_mod
add32_mods a b = omega arith

pub add32_mod : (a b : ℕ) → add32 (a % int32_mod) b ≡ (a + b) % int32_mod
add32_mod a b = omega arith

pub tmp-ne-log : (p : Bytes) → equal (p ++ codes ".tmp") p ≡ false
tmp-ne-log p = elim (Bool-cases (equal (p ++ codes ".tmp") p)) [
  | inr differs ↦ differs
  | inl same ↦
      let longer = ap (λ (b : Bytes). length b) ((equal_iff (p ++ codes ".tmp") p).0 same) in
      absurd (omega (arith, longer, length-append {0} p (codes ".tmp")))
]

module _ ⦃maps : XsyncMap⦄ ⦃json : Json⦄ where
  open maps use {range}
  open json use {Value, as_string, marshal}

  pub then_ok :
      {B : Type 0} (m : Go (Unit {0})) (k : Go B) (t : Shrinking) {t' : Shrinking}
      → m t ≡ (ok tt, t')
      → (m >> k) t ≡ k t'
  then_ok m k t e = rw e

  abbrev pub with_os : Os → Shrinking → Shrinking
  with_os os t = record t { base = record t.base { os = os } }

  pub call_ok :
      (f : Os → Bool × Os) (undo : Store → Store) (t : Shrinking) {os : Os}
      → f t.base.os ≡ (true, os)
      → call f undo t ≡ (ok tt, with_os os t)
  call_ok f undo t e =
      ap (λ (x : Bool × Os). settle_call x.0 undo (record t { base = record t.base { os = x.1 } }))
        e

  -- The temporary file holds `c`, and `n` records are counted; of the store `s`, only the file
  -- system has changed, and the log has not.
  pub record Compacting (s : Store) (c : Bytes) (n : ℕ) (t : Shrinking) : Type 0 where
    pub synced : ℕ
    pub there : t.base.os.files (tmp_path t.base) ≡ some (record { content = c; synced = synced })
    pub quiet : t.base.os.faults ≡ []
    pub kept : t.base ≡ record s { os = t.base.os }
    pub counted : t.counter ≡ n % int32_mod
    pub log_kept : t.base.os.files s.path ≡ s.os.files s.path

  pub files-put_tmp :
      (s : Store) (t : Shrinking) (file : File) (os : Os)
      → t.base ≡ record s { os = t.base.os }
      → (Os.put (tmp_path t.base) file os).files s.path ≡ os.files s.path
  files-put_tmp s t file os kept =
      let path : t.base.path ≡ s.path = ap (λ (x : Store). x.path) kept in
      rw (path, tmp-ne-log s.path)

  pub Compacting-at :
      {s : Store} {c c' : Bytes} {n n' : ℕ} {t : Shrinking}
      → c ≡ c'
      → n ≡ n'
      → Compacting s c n t
      → Compacting s c' n' t
  Compacting-at {s} {t = t} p q h = subst₂ (λ c n. Compacting s c n t) p q h

  -- A run of `m` that succeeds and leaves the file and the count as told.
  abbrev pub Reaches : Store → Bytes → ℕ → Go (Unit {0}) → Shrinking → Type 0
  Reaches s c n m t = (t' : Shrinking) × (m t ≡ (ok tt, t')) × Compacting s c n t'

  module _ {s : Store} {c : Bytes} {n : ℕ} {t : Shrinking} (h : Compacting s c n t) where
    abbrev pub appended : Bytes → Shrinking
    appended b =
        with_os
          (Os.put (tmp_path t.base) (record { content = c ++ b; synced = h.synced }) t.base.os) t

    pub call-write :
        (undo : Store → Store) (b : Bytes)
        → call (Os.write (at (tmp_path t.base)) b) undo t ≡ (ok tt, appended b)
    call-write undo b =
        call_ok (Os.write (at (tmp_path t.base)) b) undo t
          (Os.write_no_faults (tmp_path t.base) b t.base.os h.there h.quiet)

    pub appended-Compacting : (b : Bytes) → Compacting s (c ++ b) n (appended b)
    appended-Compacting b = record {
      synced = h.synced;
      there = Os.files-put_self (tmp_path t.base) _ t.base.os;
      quiet = h.quiet;
      kept =
          ap
            (λ (x : Store). record x {
              os =
                  Os.put (tmp_path t.base) (record { content = c ++ b; synced = h.synced })
                    t.base.os;
            })
            h.kept;
      counted = h.counted;
      log_kept = files-put_tmp s t _ t.base.os h.kept ∙ h.log_kept;
    }

    pub count-Reaches : (k : ℕ) → Reaches s c (n + k) (count k) t
    count-Reaches k = (
      _,
      refl,
      record {
        synced = h.synced;
        there = h.there;
        quiet = h.quiet;
        kept = h.kept;
        counted = rw h.counted (add32_mod n k);
        log_kept = h.log_kept;
      },
    )
