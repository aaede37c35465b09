-- ===== src/Locks/Daemon.antt =====
-- litehive/daemon/registry.py: a daemon takes its lock (`register`).
use litehive.Base.{ℕ, Bool, Option, none, some, if◌then◌else◌}
use litehive.Base.Json.{Fields}
use litehive.Locks.Files.{Disk, open_file, flock, unlock}
use litehive.Locks.Manager.{
  remove_stale_lockfile, read_locked_metadata, write_locked_metadata, pid_of,
}

pub data Registration : Type 0 where
  running : Option ℕ → Registration
  in_process : Registration
  registered : ℕ → Registration

-- What follows the lock: `known` says that this process has a handle registered already.
abbrev pub settled : ℕ → Fields → Bool → ℕ → Disk → Option Disk → Disk × Registration
settled handle metadata known i opened none =
    (opened, Registration.running (pid_of (read_locked_metadata i opened)))
settled handle metadata known i opened (some disk) =
    let written = write_locked_metadata i metadata disk in
    if known
    then (unlock handle i written, Registration.in_process)
    else (written, Registration.registered i)

-- From the open of the lock file on.
unfoldable pub register_opened : ℕ → Fields → Bool → Disk → Disk × Registration
unfolding open_file flock unlock read_locked_metadata write_locked_metadata pid_of
register_opened handle metadata known disk =
    let (i, opened) = open_file disk in
    settled handle metadata known i opened (flock handle i opened)

unfoldable pub register : (ℕ → Bool) → ℕ → Fields → Bool → Disk → Disk × Registration
unfolding remove_stale_lockfile register_opened
register alive handle metadata known disk =
    register_opened handle metadata known (remove_stale_lockfile alive disk).0
