-- ===== src/Locks/Samples.antt =====
-- Lock files of a runner and of a daemon, on which the theorems on locks are applied.
use litehive.Base.{ℕ, ◌≡◌, refl, Bool, true, false, none, some, arith}
use mathlib.Core.Option.{some-injective}
use litehive.Base.Text.{lit, text_beq}
use litehive.Base.Json.{Fields, int, end, field, get}
use litehive.Locks.Files.{payload, Disk, open_file, flock}
use litehive.Locks.Manager.{acquire, pid_of, is_stale_lockfile, read_metadata}
use litehive.Locks.Daemon.{Registration, register}
use litehive.Locks.Exclusion.{Single, Step, Steps, Steps-exclusive}
use litehive.Locks.Overlap.{first, second, register-both, Registered, register-Registered}

abbrev none_alive : ℕ → Bool
none_alive pid = false

abbrev named : ℕ → Fields
named pid = field (lit "pid") (int pid) end

-- A file that names process 7, which no handle holds.
abbrev left : Disk
left = record {
  path = some 0;
  files = λ i. record { holder = none; contents = payload (named 7) };
  next = 1;
}

left-Single : Single left
left-Single = record { named = λ i h e. cc; exists = λ i e. omega (arith, some-injective 0 i e) }

-- The handle 5 takes the lock.
abbrev got : Disk
got = (acquire none_alive 5 false left).0

got-Steps : Steps none_alive left got
got-Steps = Steps.then_ left left got (Steps.here left) (Step.acquired 5 refl)

got-held : (got.files 0).holder ≡ some 5
unfolding acquire open_file flock
got-held = refl

Steps-exclusive_example :
    ((j k : ℕ) → (got.files j).holder ≡ some k → (◌≡◌ {A = ℕ} 0 j) × (◌≡◌ {A = ℕ} 5 k))
    × ((k : ℕ) → acquire none_alive k false got ≡ (got, none))
Steps-exclusive_example = Steps-exclusive none_alive left got got-Steps left-Single 0 5 got-held

left-stale : is_stale_lockfile none_alive left ≡ true
unfolding is_stale_lockfile read_metadata pid_of get lit text_beq
left-stale = refl

register-both_example :
    let a = first none_alive 5 6 (named 8) (named 9) left in
    let b = second none_alive 5 6 (named 8) (named 9) left in
    (a.1 ≡ Registration.registered 1)
    × (b.1 ≡ Registration.registered 2)
    × ((b.0.files 1).holder ≡ some 5)
    × ((b.0.files 2).holder ≡ some 6)
register-both_example = register-both none_alive 5 6 (named 8) (named 9) left left-Single left-stale

abbrev all_alive : ℕ → Bool
all_alive pid = true

-- The handle 5 holds the file, which names the live process 7.
abbrev running : Disk
running = record left { files = λ i. record { holder = some 5; contents = payload (named 7) } }

running-Registered : Registered all_alive 0 5 7 (named 7) running
unfolding pid_of get lit text_beq
running-Registered = record {
  at_path = refl;
  holds = refl;
  says = refl;
  named = refl;
  lives = refl;
}

register-Registered_example :
    register all_alive 6 (named 9) false running ≡ (running, Registration.running (some 7))
register-Registered_example =
    register-Registered all_alive 0 5 7 (named 7) running running-Registered 6 (named 9) false
