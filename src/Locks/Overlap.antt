-- ===== src/Locks/Overlap.antt =====
-- litehive/state/lock_manager.py (`remove_stale_lockfile`), daemon/registry.py (`register`): the lock
-- of the daemon, whose stale file is unlinked first.
use litehive.Base.{
  ℕ, suc, ◌<◌, ◌≤◌, ◌≡◌, refl, ap, sym, ◌∙◌, inl, inr, Bool-cases, Option-cases, Bool, true, false,
  not, Option, none, some, nat_beq, nat_beq_iff, if◌then◌else◌, arith,
}
use mathlib.Core.Option.{some-injective}
use litehive.Base.Json.{Fields, obj, value_truthy}
use litehive.Locks.Files.{
  payload, held_by, File, Disk, created, open_file, flock, write_file, unlink,
}
use litehive.Locks.Manager.{
  or_empty, named_metadata, contents_metadata, stale_metadata, dead, pid_of, read_metadata,
  read_locked_metadata, is_stale_lockfile, remove_stale_lockfile, write_locked_metadata,
}
use litehive.Locks.Daemon.{Registration, settled, register_opened, register}
use litehive.Locks.Exclusion.{Single, opened_at-some, held_by-some}

same_number : (i : ℕ) → nat_beq i i ≡ true
same_number i = (nat_beq_iff i i).1 refl

not_next : (i j : ℕ) → j ≡ suc i → (nat_beq j i ≡ false) × (nat_beq i j ≡ false)
not_next i j e = (ground (arith, nat_beq_iff j i), ground (arith, nat_beq_iff i j))

-- A new file is opened and locked, as no handle holds it; the other files are as they were.
abbrev Taken : ℕ → Fields → Disk → Disk × Registration → Type 0
Taken h m disk (after, answer) =
    (answer ≡ Registration.registered disk.next)
    × (after.next ≡ suc disk.next)
    × (after.files disk.next ≡ record { holder = some h; contents = payload m })
    × ((j : ℕ) → nat_beq j disk.next ≡ false → after.files j ≡ disk.files j)
    × (after.path ≡ some disk.next)

Taken-settled :
    (h : ℕ) (m : Fields) (disk : Disk) (o : Option ℕ)
    → o ≡ none
    → Taken h m disk
        (settled h m false disk.next (created disk) (held_by o h disk.next (created disk)))
unfolding write_locked_metadata write_file
Taken-settled h m disk none e =
    (refl, refl, (rw (same_number disk.next) refl), (λ j other. rw other refl), refl)
Taken-settled h m disk (some k) e = cc

Taken-register_opened :
    (h : ℕ) (m : Fields) (disk : Disk)
    → (disk.files disk.next).holder ≡ none
    → Taken h m disk (register_opened h m false (unlink disk))
unfolding register_opened open_file flock unlink
Taken-register_opened h m disk free = Taken-settled h m disk (disk.files disk.next).holder free

free-beyond : (disk : Disk) → Single disk → (i : ℕ) → disk.next ≤ i → (disk.files i).holder ≡ none
free-beyond disk inv i far = elim (Option-cases (disk.files i).holder) [
  | inl free ↦ free
  | inr (h, at_) ↦ absurd (too_far (inv.exists i (inv.named i h at_)) far)
]
  where
    too_far : {n k : ℕ} → k < n → n ≤ k → ⊥
    too_far h k = omega (arith, h, k)

module _ (alive : ℕ → Bool) (p q : ℕ) (m n : Fields) (disk : Disk) where
  -- The file is unlinked if it was found stale on the disk `seen`.
  abbrev pub cleaned : Disk → Disk → Disk
  cleaned seen now = if is_stale_lockfile alive seen then unlink now else now

  abbrev pub first : Disk × Registration
  first = register_opened p m false (cleaned disk disk)

  -- The second daemon looks at the file before the first unlinks it, and goes on after the first is
  -- registered.
  abbrev pub second : Disk × Registration
  second = register_opened q n false (cleaned disk first.0)

  first-register : first ≡ register alive p m false disk
  unfolding register remove_stale_lockfile
  first-register = elim (Bool-cases (is_stale_lockfile alive disk)) [
    | inl stale ↦ rw stale refl
    | inr fresh ↦ rw fresh refl
  ]

  -- If a second daemon looks at a stale lock file before a first one unlinks it, and unlinks and opens
  -- the file only after the first is registered, then both are registered, each with the lock of a
  -- file of its own. No file but the one that the path names is
  -- locked at first.
  pub register-both :
      Single disk
      → is_stale_lockfile alive disk ≡ true
      → (first.1 ≡ Registration.registered disk.next)
        × (second.1 ≡ Registration.registered (suc disk.next))
        × ((second.0.files disk.next).holder ≡ some p)
        × ((second.0.files (suc disk.next)).holder ≡ some q)
  register-both inv stale =
      let a = (register_opened p m false (unlink disk)).0 in
      let one = Taken-register_opened p m disk (free-beyond disk inv disk.next (omega arith)) in
      let apart = not_next disk.next a.next one.1 in
      let free : (a.files a.next).holder ≡ none =
        ap (λ (f : File). f.holder) (one.3 a.next apart.0)
        ∙ free-beyond disk inv a.next (omega (arith, one.1)) in
      let two = Taken-register_opened q n a free in
      let b = (register_opened q n false (unlink a)).0 in
      rw stale (
        one.0,
        (two.0 ∙ ap Registration.registered one.1),
        ap (λ (f : File). f.holder) (two.3 disk.next apart.1 ∙ one.2),
        (ap (λ i. (b.files i).holder) (sym one.1) ∙ ap (λ (f : File). f.holder) two.2),
      )

fresh-dead :
    (alive : ℕ → Bool) (pid : ℕ)
    → alive pid ≡ true
    → (b : Bool) (o : Option ℕ) → o ≡ some pid
    → (if b then dead alive o else false) ≡ false
fresh-dead alive pid lives false o e = refl
fresh-dead alive pid lives true none e = cc
fresh-dead alive pid lives true (some x) e = ap not (ap alive (some-injective x pid e) ∙ lives)

-- A daemon that is registered: its handle holds the file that the path names, and the file names a
-- process that is alive.
pub record Registered (alive : ℕ → Bool) (i h pid : ℕ) (m : Fields) (disk : Disk) : Type 0 where
  pub at_path : disk.path ≡ some i
  pub holds : (disk.files i).holder ≡ some h
  pub says : (disk.files i).contents ≡ payload m
  pub named : pid_of m ≡ some pid
  pub lives : alive pid ≡ true

module _ (alive : ℕ → Bool) (i h pid : ℕ) (m : Fields) (disk : Disk)
    (on : Registered alive i h pid m disk) where
  metadata-Registered : (path : Option ℕ) → path ≡ some i → named_metadata path disk ≡ some m
  metadata-Registered none e = cc
  metadata-Registered (some j) e =
      ap (λ x. contents_metadata (disk.files x).contents) (some-injective j i e)
      ∙ ap contents_metadata on.says

  not_stale : is_stale_lockfile alive disk ≡ false
  unfolding is_stale_lockfile read_metadata
  not_stale =
      ap (stale_metadata alive) (metadata-Registered disk.path on.at_path)
      ∙ fresh-dead alive pid on.lives (value_truthy (obj m)) (pid_of m) on.named

  refused :
      (q : ℕ) (n : Fields) (known : Bool)
      → register_opened q n known disk ≡ (disk, Registration.running (some pid))
  unfolding register_opened open_file flock read_locked_metadata
  refused q n known =
      ap (λ (x : ℕ × Disk). settled q n known x.0 x.1 (flock q x.0 x.1))
        (opened_at-some disk.path i disk on.at_path)
      ∙ ap (settled q n known i disk) (held_by-some (disk.files i).holder h q i disk on.holds)
      ∙ ap (λ c. (disk, Registration.running (pid_of (or_empty (contents_metadata c))))) on.says
      ∙ ap (λ o. (disk, Registration.running o)) on.named

  -- While a live daemon is registered, another that registers is refused with its process, and
  -- changes nothing.
  pub register-Registered :
      (q : ℕ) (n : Fields) (known : Bool)
      → register alive q n known disk ≡ (disk, Registration.running (some pid))
  unfolding register remove_stale_lockfile
  register-Registered q n known =
      ap
        (λ b.
          register_opened q n known
            (if◌then◌else◌ {A = Disk × Bool} b (unlink disk, true) (disk, false)).0)
        not_stale
      ∙ refused q n known
