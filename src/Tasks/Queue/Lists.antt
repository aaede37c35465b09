-- ===== src/Tasks/Queue/Lists.antt =====
-- Lists of task ids: where an id stands, and what is left without it.
use litehive.Base.{
  ℕ, zero, suc, ◌+◌, ◌≤◌, ◌≡◌, ◌≢◌, ◌⊎◌, refl, ap, inl, inr, Bool-cases, Bool, true, false, not,
  List, [], ◌∷◌, ◌++◌, elem, ◌==◌, length, take, drop, count, filter, if◌then◌else◌, arith,
  elem-filter,
}
use litehive.Base.Text.{Text, text_eq, text_beq_iff}
use litehive.Tasks.FailedRuns.{nonempty}
use litehive.Tasks.Queue.{without, insert_at, repeats}

-- The tasks that are not named stand in the queue as often, and in the same order.
abbrev pub KeepsOthers : List Text → List Text → List Text → Type 0
KeepsOthers ids before after =
    filter (λ x. not (elem x ids)) after ≡ filter (λ x. not (elem x ids)) before

pub filter-append :
    (p : Text → Bool) (xs ys : List Text) → filter p (xs ++ ys) ≡ filter p xs ++ filter p ys
filter-append p [] ys = refl
filter-append p (x ∷ xs) ys = ground (arith, filter-append p xs ys)

pub take-drop : (n : ℕ) (xs : List Text) → take n xs ++ drop n xs ≡ xs
take-drop zero xs = refl
take-drop (suc n) [] = refl
take-drop (suc n) (x ∷ xs) = ap (λ ys. x ∷ ys) (take-drop n xs)

pub count-append : (a : Text) (xs ys : List Text) → count a (xs ++ ys) ≡ count a xs + count a ys
count-append a [] ys = omega arith
count-append a (x ∷ xs) ys = ground (arith, count-append a xs ys)

pub count-without : (a : Text) (xs : List Text) → count a (without a xs) ≡ 0
count-without a [] = refl
count-without a (x ∷ xs) = ground (arith, count-without a xs, text_beq_iff a x, text_beq_iff x a)

pub filter-without :
    (id : Text) (ids xs : List Text)
    → elem id ids ≡ true
    → filter (λ x. not (elem x ids)) (without id xs) ≡ filter (λ x. not (elem x ids)) xs
filter-without id ids [] h = refl
filter-without id ids (x ∷ xs) h = elim (Bool-cases (x == id)) [
  | inl same ↦ ground (
    arith,
    h,
    same,
    filter-without id ids xs h,
    ap (λ y. elem y ids) ((text_beq_iff x id).0 same),
  )
  | inr other ↦ ground (arith, other, filter-without id ids xs h)
]

-- Where `a` first stands.
abbrev pub position_of : Text → List Text → ℕ
position_of a [] = 0
position_of a (x ∷ xs) = let n = position_of a xs in if a == x then 0 else suc n

pub position_of-insert_at :
    (a : Text) (n : ℕ) (xs : List Text)
    → n ≤ length xs
    → elem a xs ≡ false
    → position_of a (insert_at n a xs) ≡ n
position_of-insert_at a zero xs h new = ground (arith, text_beq_iff a a)
position_of-insert_at a (suc n) [] h new = omega arith
position_of-insert_at a (suc n) (x ∷ xs) h new = ground (arith, position_of-insert_at a n xs, new)

pub elem-without : (a : Text) (xs : List Text) → elem a (without a xs) ≡ false
elem-without a xs = ground (arith, elem-filter (λ x. not (x == a)) a xs, text_beq_iff a a)

pub filter-insert_at :
    (a : Text) (n : ℕ) (xs : List Text) → KeepsOthers (a ∷ []) xs (insert_at n a xs)
filter-insert_at a zero xs = ground (arith, text_beq_iff a a)
filter-insert_at a (suc n) [] = ground (arith, text_beq_iff a a)
filter-insert_at a (suc n) (x ∷ xs) = ground (arith, filter-insert_at a n xs)

pub count-insert_at :
    (a : Text) (n : ℕ) (xs : List Text) → count a (insert_at n a xs) ≡ suc (count a xs)
count-insert_at a zero xs = ground (arith, text_beq_iff a a)
count-insert_at a (suc n) [] = ground (arith, text_beq_iff a a)
count-insert_at a (suc n) (x ∷ xs) = ground (arith, count-insert_at a n xs)

pub elem_self : (a : Text) → elem a (a ∷ []) ≡ true
elem_self a = ground (arith, text_beq_iff a a)

pub repeats-count :
    (seen ids : List Text) (x : Text)
    → repeats seen ids ≡ []
    → (elem x seen ≡ true → count x ids ≡ 0) × (count x ids ≤ 1)
unfolding repeats
repeats-count seen [] x h = ((λ _. refl), omega arith)
repeats-count seen (id ∷ ids) x h = elim (Bool-cases (elem id seen)) [
  | inl old ↦ ground (arith, h, old)
  | inr new ↦
      let rest = repeats-count (id ∷ seen) ids x (ground (arith, h, new)) in
      elim (Bool-cases (x == id)) [
        | inl same ↦
            ground
              (arith, same, new, rest.0, rest.1, ap (λ y. elem y seen) ((text_beq_iff x id).0 same))
        | inr other ↦ ground (arith, other, rest.0, rest.1)
      ]
]

pub count-elem : (x : Text) (xs : List Text) → elem x xs ≡ true → 1 ≤ count x xs
count-elem x [] h = cc
count-elem x (y ∷ ys) h = ground (arith, count-elem x ys)

pub count-filter-out :
    (ids xs : List Text) (x : Text)
    → elem x ids ≡ true
    → count x (filter (λ y. not (elem y ids)) xs) ≡ 0
count-filter-out ids [] x h = refl
count-filter-out ids (y ∷ ys) x h = elim (Bool-cases (x == y)) [
  | inl same ↦
      ground
        (arith, h, count-filter-out ids ys x h, ap (λ z. elem z ids) ((text_beq_iff x y).0 same))
  | inr other ↦ ground (arith, other, count-filter-out ids ys x h)
]

pub filter_self :
    (ids : List Text) (xs : List Text)
    → ((x : Text) → elem x xs ≡ true → elem x ids ≡ true)
    → filter (λ y. not (elem y ids)) xs ≡ []
filter_self ids [] h = refl
filter_self ids (x ∷ xs) h = ground (
  arith,
  h x (ground (arith, text_beq_iff x x)),
  filter_self ids xs (λ y at_y. h y (ground (arith, at_y))),
)

pub filter-idle : (p : Text → Bool) (xs : List Text) → filter p (filter p xs) ≡ filter p xs
filter-idle p [] = refl
filter-idle p (x ∷ xs) = ground (arith, filter-idle p xs)

pub filter-none :
    (p : Text → Bool) (xs : List Text)
    → filter p xs ≡ []
    → (x : Text) → elem x xs ≡ true
    → p x ≡ false
filter-none p [] h x at_x = cc
filter-none p (y ∷ ys) h x at_x = ground (
  arith,
  at_x,
  h,
  filter-none p ys,
  text_beq_iff x y,
  ap p,
  filter-none p ys (ground (arith, h)) x,
)

pub take-append : (xs ys : List Text) → take (length xs) (xs ++ ys) ≡ xs
take-append [] ys = refl
take-append (x ∷ xs) ys = ap (λ zs. x ∷ zs) (take-append xs ys)

pub nonempty-cases :
    (xs : List Text) → ((nonempty xs ≡ true) × (xs ≢ [])) ⊎ ((nonempty xs ≡ false) × (xs ≡ []))
nonempty-cases [] = inr (refl, refl)
nonempty-cases (x ∷ xs) = inl (refl, λ e. cc)

pub append_nil : (xs : List Text) → xs ++ [] ≡ xs
append_nil [] = refl
append_nil (x ∷ xs) = ap (λ ys. x ∷ ys) (append_nil xs)

pub position_of-last :
    (a : Text) (xs : List Text) → elem a xs ≡ false → position_of a (xs ++ a ∷ []) ≡ length xs
position_of-last a [] new = ground (arith, text_beq_iff a a)
position_of-last a (x ∷ xs) new = ground (arith, new, position_of-last a xs)
