-- ===== src/Locks/Exclusion.antt =====
-- litehive/state/lock_manager.py: who holds the lock, along the steps of any processes.
use litehive.Base.{
  ℕ, ◌<◌, ◌≡◌, refl, ap, sym, ◌∙◌, subst, ◌⊎◌, inl, inr, Bool-cases, Option-cases, Bool, true,
  false, ◌&&◌, Option, none, some, is_some, nat_beq, nat_beq_iff, arith,
}
use mathlib.Core.Option.{some-injective}
use litehive.Base.Json.{Fields, end}
use litehive.Locks.Files.{
  Contents, payload, File, Disk, with_file, given_up, opened_at, held_by, open_file, flock, unlock,
  write_file,
}
use litehive.Locks.Manager
use litehive.Locks.Manager.{
  read_locked_metadata, write_locked_metadata, clear_locked_metadata, pid_of, pid_is_live, acquire,
  release, is_active, clear_metadata_if_unlocked,
}

not_free : {A : Type 0} {a : A} → none ≡ some a → ⊥
not_free h = cc

-- Every handle that holds a lock holds it on the file that the path names, which exists.
pub record Single (disk : Disk) : Type 0 where
  pub named : (i h : ℕ) → (disk.files i).holder ≡ some h → disk.path ≡ some i
  pub exists : (i : ℕ) → disk.path ≡ some i → i < disk.next

Single-with_file :
    (i : ℕ) (file : File) (disk : Disk)
    → Single disk
    → (file.holder ≡ none) ⊎ (disk.path ≡ some i)
    → Single (with_file i file disk)
Single-with_file i file disk inv ok = record {
  named = λ j h at_. elim (Bool-cases (nat_beq j i)) [
    | inl same ↦
        let e : j ≡ i = (nat_beq_iff j i).0 same in
        elim ok [
          | inl free ↦ absurd (not_free (sym free ∙ (sym (rw same refl) ∙ at_)))
          | inr path ↦ path ∙ ap some (sym e)
        ]
    | inr other ↦ inv.named j h (sym (rw other refl) ∙ at_)
  ];
  exists = inv.exists;
}

-- What the open of a lock file gives.
pub record Opened (i : ℕ) (opened : Disk) : Type 0 where
  single : Single opened
  at_path : opened.path ≡ some i

Opened-opened_at :
    (path : Option ℕ) (disk : Disk)
    → disk.path ≡ path
    → Single disk
    → Opened (opened_at path disk).0 (opened_at path disk).1
Opened-opened_at none disk e inv = record {
  single = record {
    named = λ i h at_. absurd (not_free (sym e ∙ inv.named i h at_));
    exists = λ i at_. ground (arith, some-injective disk.next i at_);
  };
  at_path = refl;
}
Opened-opened_at (some i) disk e inv = record { single = inv; at_path = e }

Opened-open_file : (disk : Disk) → Single disk → Opened (open_file disk).0 (open_file disk).1
unfolding open_file
Opened-open_file disk inv = Opened-opened_at disk.path disk refl inv

held-path :
    (i : ℕ) (disk : Disk) → Single disk → ((disk.files i).holder ≡ none) ⊎ (disk.path ≡ some i)
held-path i disk inv = elim (Option-cases (disk.files i).holder) [
  | inl free ↦ inl free
  | inr (h, at_) ↦ inr (inv.named i h at_)
]

Single-write_file :
    (i : ℕ) (contents : Contents) (disk : Disk) → Single disk → Single (write_file i contents disk)
unfolding write_file
Single-write_file i contents disk inv =
    Single-with_file i (record (disk.files i) { contents = contents }) disk inv
      (held-path i disk inv)

given_up-none : (handle : ℕ) (o : Option ℕ) → o ≡ none → given_up handle o ≡ none
given_up-none handle none e = refl
given_up-none handle (some h) e = cc

Single-unlock : (handle i : ℕ) (disk : Disk) → Single disk → Single (unlock handle i disk)
unfolding unlock
Single-unlock handle i disk inv =
    Single-with_file i (record (disk.files i) { holder = given_up handle (disk.files i).holder })
      disk inv
      (elim (held-path i disk inv) [
        | inl free ↦ inl (given_up-none handle (disk.files i).holder free)
        | inr path ↦ inr path
      ])

Single-flock :
    (handle i : ℕ) (disk after : Disk)
    → Single disk
    → disk.path ≡ some i
    → flock handle i disk ≡ some after
    → Single after
unfolding flock
Single-flock handle i disk after inv path e = elim (Option-cases (disk.files i).holder) [
  | inl free ↦
      subst Single
        (some-injective (with_file i (record (disk.files i) { holder = some handle }) disk) after
          (sym (rw free refl) ∙ e))
        (Single-with_file i (record (disk.files i) { holder = some handle }) disk inv (inr path))
  | inr (h, at_) ↦ absurd (not_free (sym (rw at_ refl) ∙ e))
]

-- The steps of the lock manager that do not unlink the file. A handle is released, and metadata is
-- written, by who holds the lock.
pub data Step (alive : ℕ → Bool) (before after : Disk) : Type 0 where
  acquired : (handle : ℕ) → after ≡ (acquire alive handle false before).0 → Step alive before after
  released :
      (handle i : ℕ) (clear : Bool)
      → (before.files i).holder ≡ some handle
      → after ≡ release handle i clear before
      → Step alive before after
  written :
      (handle i : ℕ) (m : Fields)
      → (before.files i).holder ≡ some handle
      → after ≡ write_locked_metadata i m before
      → Step alive before after
  probed :
      (handle : ℕ) (held : Bool)
      → after ≡ (is_active handle held before).0
      → Step alive before after
  scrubbed :
      (handle : ℕ) (held : Bool) (expected : Option ℕ) (require : Bool)
      → after ≡ (clear_metadata_if_unlocked alive handle held expected require before).0
      → Step alive before after

pub data Steps (alive : ℕ → Bool) : Disk → Disk → Type 0 where
  here : (disk : Disk) → Steps alive disk disk
  then_ : (a b c : Disk) → Steps alive a b → Step alive b c → Steps alive a c

Single-locked :
    (handle i : ℕ) (opened : Disk)
    → Opened i opened
    → Single (Manager.locked i opened (flock handle i opened)).0
Single-locked handle i opened ok = elim (Option-cases (flock handle i opened)) [
  | inl busy ↦ rw busy ok.single
  | inr (disk, got) ↦ rw got (Single-flock handle i opened disk ok.single ok.at_path got)
]

Single-probed :
    (handle i : ℕ) (opened : Disk)
    → Opened i opened
    → Single (Manager.probed handle i opened (flock handle i opened)).0
Single-probed handle i opened ok = elim (Option-cases (flock handle i opened)) [
  | inl busy ↦ rw busy ok.single
  | inr (disk, got) ↦
      rw got
        (Single-unlock handle i disk (Single-flock handle i opened disk ok.single ok.at_path got))
]

Single-scrubbed :
    (alive : ℕ → Bool) (handle i : ℕ) (expected : Option ℕ) (require : Bool) (opened : Disk)
    (o : Option Disk)
    → Single opened
    → ((disk : Disk) → o ≡ some disk → Single disk)
    → Single (Manager.scrubbed alive handle i expected require opened o).0
unfolding clear_locked_metadata
Single-scrubbed alive handle i expected require opened none inv after = inv
Single-scrubbed alive handle i expected require opened (some disk) inv after =
    let m = read_locked_metadata i disk in
    let free = Single-unlock handle i disk (after disk refl) in
    elim (Bool-cases (Manager.expects expected (pid_of m))) [
      | inr other ↦ rw other free
      | inl ours ↦ elim (Bool-cases (require && pid_is_live alive m)) [
        | inl live ↦ rw (ours, live) free
        | inr dead ↦
            rw (ours, dead)
              (Single-unlock handle i (write_file i (payload end) disk)
                (Single-write_file i (payload end) disk (after disk refl)))
      ]
    ]

Single-cleared :
    (alive : ℕ → Bool) (handle : ℕ) (expected : Option ℕ) (require : Bool) (before : Disk)
    → Single before
    → Single (clear_metadata_if_unlocked alive handle false expected require before).0
unfolding clear_metadata_if_unlocked
Single-cleared alive handle expected require before inv =
    let i = (open_file before).0 in
    let opened = (open_file before).1 in
    let ok = Opened-open_file before inv in
    elim (Bool-cases (is_some before.path)) [
      | inr missing ↦ rw missing inv
      | inl there ↦ rw there (
          Single-scrubbed alive handle i expected require opened (flock handle i opened) ok.single
            (λ disk got. Single-flock handle i opened disk ok.single ok.at_path got))
    ]

Step-Single :
    (alive : ℕ → Bool) (before after : Disk)
    → Step alive before after
    → Single before
    → Single after
unfolding acquire release write_locked_metadata is_active clear_metadata_if_unlocked
    clear_locked_metadata
Step-Single alive before after (Step.acquired handle e) inv =
    subst Single (sym e)
      (Single-locked handle (open_file before).0 (open_file before).1 (Opened-open_file before inv))
Step-Single alive before after (Step.released handle i false held e) inv =
    subst Single (sym e) (Single-unlock handle i before inv)
Step-Single alive before after (Step.released handle i true held e) inv = subst Single (sym e) (
    Single-unlock handle i (write_file i (payload end) before)
      (Single-write_file i (payload end) before inv))
Step-Single alive before after (Step.written handle i m held e) inv =
    subst Single (sym e) (Single-write_file i (payload m) before inv)
Step-Single alive before after (Step.probed handle true e) inv = subst Single (sym e) inv
Step-Single alive before after (Step.probed handle false e) inv =
    subst Single (sym e)
      (Single-probed handle (open_file before).0 (open_file before).1 (Opened-open_file before inv))
Step-Single alive before after (Step.scrubbed handle true expected require e) inv =
    subst Single (sym e) inv
Step-Single alive before after (Step.scrubbed handle false expected require e) inv =
    subst Single (sym e) (Single-cleared alive handle expected require before inv)

Steps-Single : (alive : ℕ → Bool) (a b : Disk) → Steps alive a b → Single a → Single b
Steps-Single alive a b (Steps.here _) inv = inv
Steps-Single alive a b (Steps.then_ _ m _ steps step) inv =
    Step-Single alive m b step (Steps-Single alive a m steps inv)

same_holder :
    (i j h k : ℕ) (disk : Disk)
    → i ≡ j
    → (disk.files i).holder ≡ some h
    → (disk.files j).holder ≡ some k
    → h ≡ k
same_holder i j h k disk e at_i at_j =
    some-injective h k (sym at_i ∙ ap (λ x. (disk.files x).holder) e ∙ at_j)

pub opened_at-some :
    (path : Option ℕ) (i : ℕ) (disk : Disk) → path ≡ some i → opened_at path disk ≡ (i, disk)
opened_at-some none i disk e = cc
opened_at-some (some j) i disk e = ap (λ x. (x, disk)) (some-injective j i e)

pub held_by-some : (o : Option ℕ) (h k i : ℕ) (disk : Disk) → o ≡ some h → held_by o k i disk ≡ none
held_by-some none h k i disk e = cc
held_by-some (some x) h k i disk e = refl

acquire-refused :
    (alive : ℕ → Bool) (i h k : ℕ) (disk : Disk)
    → Single disk
    → (disk.files i).holder ≡ some h
    → acquire alive k false disk ≡ (disk, none)
unfolding acquire open_file flock
acquire-refused alive i h k disk inv held =
    subst (λ (x : ℕ × Disk). Manager.locked x.0 x.1 (flock k x.0 x.1) ≡ (disk, none))
      (sym (opened_at-some disk.path i disk (inv.named i h held)))
      (ap (Manager.locked i disk) (held_by-some (disk.files i).holder h k i disk held))

-- Along any steps of any processes on a lock file that they do not unlink, from a state where the
-- holders hold the file that the path names: one handle at most holds the lock, and while it does,
-- every other acquire is refused and changes nothing.
pub Steps-exclusive :
    (alive : ℕ → Bool) (a b : Disk)
    → Steps alive a b
    → Single a
    → (i h : ℕ) → (b.files i).holder ≡ some h
    → ((j k : ℕ) → (b.files j).holder ≡ some k → (i ≡ j) × (h ≡ k))
      × ((k : ℕ) → acquire alive k false b ≡ (b, none))
Steps-exclusive alive a b steps from i h held =
    let inv = Steps-Single alive a b steps from in
    (
      (λ j k at_.
          let e : i ≡ j = some-injective i j (sym (inv.named i h held) ∙ inv.named j k at_) in
          (e, same_holder i j h k b e held at_)),
      (λ k. acquire-refused alive i h k b inv held),
    )
