-- ===== src/Env/Os.antt =====
-- The file system as the package uses it, with the faults that the environment injects.
use go_persist.Base.{
  ℕ, Bool, true, false, Option, none, some, List, [], ◌∷◌, ◌++◌, Bytes, equal, equal_refl, length,
  take, ◌≡◌, if◌then◌else◌,
}

-- `synced` counts the bytes of the content that a power failure cannot take away.
pub record File : Type 0 where
  pub content : Bytes
  pub synced : ℕ

-- An open descriptor, by the name under which its file now stands.
pub data Handle : Type 0 where
  closed : Handle
  at : Bytes → Handle

-- Each call of the operating system takes one entry of `faults`: `none` lets it succeed, and
-- `some n` makes it fail, a write after `n` bytes. Once the list is used up all calls succeed.
pub record Os : Type 0 where
  pub files : Bytes → Option File
  pub faults : List (Option ℕ)

abbrev pub next_fault : List (Option ℕ) → Option ℕ
next_fault [] = none
next_fault (f ∷ fs) = f

abbrev pub later_faults : List (Option ℕ) → List (Option ℕ)
later_faults [] = []
later_faults (f ∷ fs) = fs

abbrev pub advance : Os → Os
advance os = record os { faults = later_faults os.faults }

abbrev pub put : Bytes → File → Os → Os
put name file os = record os { files = λ n. if equal name n then some file else os.files n }

abbrev pub forget : Bytes → Os → Os
forget name os = record os { files = λ n. if equal name n then none else os.files n }

abbrev pub success : Option ℕ → Bool
success none = true
success (some n) = false

-- A call with no effect on the files: `Stat`, `Seek`, reading from an open file, `Close`.
unfoldable pub attempt : Os → Bool × Os
attempt os = (success (next_fault os.faults), advance os)

abbrev pub append_bytes : File → Bytes → File
append_bytes file b = record file { content = file.content ++ b }

abbrev written : Option ℕ → Bytes → Bytes
written none b = b
written (some n) b = take n b

abbrev write_to : Bytes → Bytes → Option File → Os → Bool × Os
write_to name b none os = (false, os)
write_to name b (some file) os = (
  success (next_fault os.faults),
  put name (append_bytes file (written (next_fault os.faults) b)) (advance os),
)

-- `f.Write(b)` on a file opened with O_APPEND, or written from its start to its end.
unfoldable pub write : Handle → Bytes → Os → Bool × Os
write closed b os = (false, os)
write (at name) b os = write_to name b (os.files name) os

abbrev sync_to : Bytes → Option File → Os → Bool × Os
sync_to name none os = (false, os)
sync_to name (some file) os =
    if success (next_fault os.faults)
    then (true, put name (record file { synced = length file.content }) (advance os))
    else (false, advance os)

-- `f.Sync()`
unfoldable pub sync : Handle → Os → Bool × Os
sync closed os = (false, os)
sync (at name) os = sync_to name (os.files name) os

abbrev pub new_file : File
new_file = record { content = []; synced = 0 }

abbrev keep_or_create : Bytes → Option File → Os → Os
keep_or_create name none os = put name new_file os
keep_or_create name (some file) os = os

-- `os.OpenFile(name, os.O_CREATE|os.O_RDWR|os.O_APPEND, 0644)`
unfoldable pub open_append : Bytes → Os → Bool × Os
open_append name os =
    if success (next_fault os.faults)
    then (true, keep_or_create name (os.files name) (advance os))
    else (false, advance os)

-- `os.Create(name)`
unfoldable pub create : Bytes → Os → Bool × Os
create name os =
    if success (next_fault os.faults)
    then (true, put name new_file (advance os))
    else (false, advance os)

abbrev rename_from : Bytes → Bytes → Option File → Os → Bool × Os
rename_from old new none os = (false, os)
rename_from old new (some file) os =
    if success (next_fault os.faults)
    then (true, put new file (forget old (advance os)))
    else (false, advance os)

-- `os.Rename(old, new)`
unfoldable pub rename : Bytes → Bytes → Os → Bool × Os
rename old new os = rename_from old new (os.files old) os

abbrev pub content_of : Option File → Bytes
content_of none = []
content_of (some file) = file.content

-- With no faults ahead, a write to a file that is there appends all bytes.
pub write_no_faults :
    (name b : Bytes) (os : Os) {file : File}
    → os.files name ≡ some file
    → os.faults ≡ []
    → write (at name) b os ≡ (true, put name (append_bytes file b) os)
unfolding write
write_no_faults name b os there quiet = rw (there, quiet)

pub sync_no_faults :
    (name : Bytes) (os : Os) {file : File}
    → os.files name ≡ some file
    → os.faults ≡ []
    → sync (at name) os ≡ (true, put name (record file { synced = length file.content }) os)
unfolding sync
sync_no_faults name os there quiet = rw (there, quiet)

pub files-put_self :
    (name : Bytes) (file : File) (os : Os) → (put name file os).files name ≡ some file
files-put_self name file os = rw (equal_refl name)

pub attempt_no_faults : (os : Os) → os.faults ≡ [] → attempt os ≡ (true, os)
unfolding attempt
attempt_no_faults os quiet = rw quiet
