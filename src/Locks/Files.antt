-- ===== src/Locks/Files.antt =====
-- What the lock manager asks of the operating system: a path that names a file or none, and `flock`,
-- which one open handle of a file at most holds, until it unlocks or is closed. Nothing of this is
-- code of the repository.
use litehive.Base.{ℕ, suc, Option, none, some, nat_beq, if◌then◌else◌}
use litehive.Base.Json.{Fields}

-- The text of a lock file: one that is no JSON object, or the object, which is empty for blank text.
pub data Contents : Type 0 where
  corrupt : Contents
  payload : Fields → Contents

pub record File : Type 0 where
  pub holder : Option ℕ
  pub contents : Contents

-- Files are numbered; `next` is the number of the next file that is created.
pub record Disk : Type 0 where
  pub path : Option ℕ
  pub files : ℕ → File
  pub next : ℕ

abbrev pub with_file : ℕ → File → Disk → Disk
with_file i file disk = record disk { files = λ j. if nat_beq j i then file else disk.files j }

-- `path.open("a+")`: the file that the path names, which is created if there is none.
abbrev pub created : Disk → Disk
created disk = record disk { path = some disk.next; next = suc disk.next }

abbrev pub opened_at : Option ℕ → Disk → ℕ × Disk
opened_at none disk = (disk.next, created disk)
opened_at (some i) disk = (i, disk)

unfoldable pub open_file : Disk → ℕ × Disk
open_file disk = opened_at disk.path disk

abbrev pub held_by : Option ℕ → ℕ → ℕ → Disk → Option Disk
held_by none handle i disk =
    some (with_file i (record (disk.files i) { holder = some handle }) disk)
held_by (some other) handle i disk = none

-- `flock` with LOCK_EX and LOCK_NB; `none` is BlockingIOError.
unfoldable pub flock : ℕ → ℕ → Disk → Option Disk
flock handle i disk = held_by (disk.files i).holder handle i disk

-- `flock` with LOCK_UN, or the close of the handle: it gives up what the handle holds.
abbrev pub given_up : ℕ → Option ℕ → Option ℕ
given_up handle none = none
given_up handle (some other) = if nat_beq other handle then none else some other

unfoldable pub unlock : ℕ → ℕ → Disk → Disk
unlock handle i disk =
    with_file i (record (disk.files i) { holder = given_up handle (disk.files i).holder }) disk

unfoldable pub write_file : ℕ → Contents → Disk → Disk
write_file i contents disk = with_file i (record (disk.files i) { contents = contents }) disk

-- `path.unlink(missing_ok=True)`: handles of the file stay open.
unfoldable pub unlink : Disk → Disk
unlink disk = record disk { path = none }
