-- ===== src/Locks/Manager.antt =====
-- litehive/state/lock_manager.py: `WorkspaceLockManager`. A call names the handle that it opens;
-- `held` is the answer of `held_in_process`, and `alive` that of `pid_is_alive`.
use litehive.Base.{
  ℕ, Bool, true, false, not, ◌&&◌, Option, none, some, is_some, nat_beq, if◌then◌else◌,
}
use litehive.Base.Text.{lit}
use litehive.Base.Json.{Fields, obj, end, get, as_int, value_truthy}
use litehive.Locks.Files.{
  Contents, corrupt, payload, Disk, open_file, flock, unlock, write_file, unlink,
}

abbrev pub contents_metadata : Contents → Option Fields
contents_metadata corrupt = none
contents_metadata (payload m) = some m

abbrev pub named_metadata : Option ℕ → Disk → Option Fields
named_metadata none disk = none
named_metadata (some i) disk = contents_metadata (disk.files i).contents

unfoldable pub read_metadata : Disk → Option Fields
read_metadata disk = named_metadata disk.path disk

abbrev pub or_empty : Option Fields → Fields
or_empty none = end
or_empty (some m) = m

unfoldable pub read_locked_metadata : ℕ → Disk → Fields
read_locked_metadata i disk = or_empty (contents_metadata (disk.files i).contents)

unfoldable pub write_locked_metadata : ℕ → Fields → Disk → Disk
unfolding write_file
write_locked_metadata i m disk = write_file i (payload m) disk

unfoldable pub clear_locked_metadata : ℕ → Disk → Disk
unfolding write_file
clear_locked_metadata i disk = write_file i (payload end) disk

-- The pid that metadata names, if it is a number.
unfoldable pub pid_of : Fields → Option ℕ
unfolding get lit
pid_of m = as_int (get (lit "pid") m)

-- The file that is locked, if `flock` did not fail.
abbrev pub locked : ℕ → Disk → Option Disk → Disk × Option ℕ
locked i opened none = (opened, none)
locked i opened (some disk) = (disk, some i)

unfoldable pub release : ℕ → ℕ → Bool → Disk → Disk
unfolding clear_locked_metadata unlock
release handle i clear_metadata disk =
    unlock handle i (if clear_metadata then clear_locked_metadata i disk else disk)

abbrev pub probed : ℕ → ℕ → Disk → Option Disk → Disk × Bool
probed handle i opened none = (opened, true)
probed handle i opened (some disk) = (unlock handle i disk, false)

unfoldable pub is_active : ℕ → Bool → Disk → Disk × Bool
unfolding open_file flock unlock
is_active handle held disk =
    let (i, opened) = open_file disk in
    if held then (disk, true) else probed handle i opened (flock handle i opened)

abbrev pub expects : Option ℕ → Option ℕ → Bool
expects none pid = true
expects (some expected) none = false
expects (some expected) (some pid) = nat_beq pid expected

module _ (alive : ℕ → Bool) where
  abbrev live : Option ℕ → Bool
  live none = false
  live (some pid) = alive pid

  abbrev pub dead : Option ℕ → Bool
  dead none = false
  dead (some pid) = not (alive pid)

  unfoldable pub pid_is_live : Fields → Bool
  unfolding pid_of
  pid_is_live m = if value_truthy (obj m) then live (pid_of m) else false

  abbrev pub stale_metadata : Option Fields → Bool
  stale_metadata none = false
  stale_metadata (some m) = if value_truthy (obj m) then dead (pid_of m) else false

  -- The tests of `remove_stale_lockfile`, up to the unlink.
  unfoldable pub is_stale_lockfile : Disk → Bool
  unfolding read_metadata pid_of
  is_stale_lockfile disk = stale_metadata (read_metadata disk)

  unfoldable pub remove_stale_lockfile : Disk → Disk × Bool
  unfolding is_stale_lockfile unlink
  remove_stale_lockfile disk = if is_stale_lockfile disk then (unlink disk, true) else (disk, false)

  unfoldable pub acquire : ℕ → Bool → Disk → Disk × Option ℕ
  unfolding remove_stale_lockfile open_file flock
  acquire handle cleanup_stale_inode disk =
      let clean = if cleanup_stale_inode then (remove_stale_lockfile disk).0 else disk in
      let (i, opened) = open_file clean in locked i opened (flock handle i opened)

  abbrev pub scrubbed : ℕ → ℕ → Option ℕ → Bool → Disk → Option Disk → Disk × Bool
  scrubbed handle i expected_pid require_stale_pid opened none = (opened, false)
  scrubbed handle i expected_pid require_stale_pid opened (some disk) =
      let m = read_locked_metadata i disk in
      if not (expects expected_pid (pid_of m))
      then (unlock handle i disk, false)
      else if require_stale_pid && pid_is_live m
      then (unlock handle i disk, false)
      else (unlock handle i (clear_locked_metadata i disk), true)

  unfoldable pub clear_metadata_if_unlocked : ℕ → Bool → Option ℕ → Bool → Disk → Disk × Bool
  unfolding open_file flock unlock read_locked_metadata pid_is_live clear_locked_metadata pid_of
  clear_metadata_if_unlocked handle held expected_pid require_stale_pid disk =
      let (i, opened) = open_file disk in
      if held
      then (disk, false)
      else if not (is_some disk.path)
      then (disk, false)
      else scrubbed handle i expected_pid require_stale_pid opened (flock handle i opened)
