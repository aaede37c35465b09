-- ===== src/Tasks/Queue/Repeats.antt =====
-- litehive/tasks/queue.py (`prioritize`): the repeated ids of an order, as a sorted set.
use litehive.Base.{
  ℕ, suc, ◌≡◌, refl, sym, ◌∙◌, inl, inr, Bool-cases, and_left, and_right, Bool, true, false, not,
  ◌&&◌, ◌||◌, List, [], ◌∷◌, elem, ◌==◌, count, leb, if◌then◌else◌, arith, ap,
}
use litehive.Base.Text.{Text, text_eq, text_beq_iff}
use litehive.Tasks.FailedRuns.{text_leb}
use litehive.Tasks.Queue.{repeats, insert_sorted_set, sorted_set}

-- How often an id must stand in the rest of a list to be repeated in all of it.
abbrev needed : Bool → ℕ
needed old = if old then 1 else 2

at_least_one : (n : ℕ) → true ≡ leb 1 (suc n)
at_least_one n = ground arith

one_more : (n : ℕ) → leb 1 n ≡ leb 2 (suc n)
one_more n = ground arith

elem-repeats :
    (seen ids : List Text) (x : Text)
    → elem x (repeats seen ids) ≡ leb (needed (elem x seen)) (count x ids)
unfolding repeats
elem-repeats seen [] x = ground arith
elem-repeats seen (id ∷ ids) x = elim (Bool-cases (elem id seen)) [
  | inl old ↦ rw old (elim (Bool-cases (x == id)) [
    | inl same ↦
        rw same (
          rw (ap (λ y. elem y seen) ((text_beq_iff x id).0 same) ∙ old)
            (at_least_one (count x ids)))
    | inr other ↦ rw other (elem-repeats seen ids x)
  ])
  | inr new ↦ rw new (elim (Bool-cases (x == id)) [
    | inl same ↦
        elem-repeats (id ∷ seen) ids x
        ∙ rw same
            (rw (ap (λ y. elem y seen) ((text_beq_iff x id).0 same) ∙ new) (one_more (count x ids)))
    | inr other ↦ elem-repeats (id ∷ seen) ids x ∙ rw other refl
  ])
]

elem-insert_sorted_set :
    (id x : Text) (xs : List Text) → elem x (insert_sorted_set id xs) ≡ (x == id) || elem x xs
unfolding insert_sorted_set
elem-insert_sorted_set id x [] = refl
elem-insert_sorted_set id x (y ∷ ys) =
    ground (
      arith,
      elem-insert_sorted_set id x ys,
      text_beq_iff id y,
      text_beq_iff x id,
      text_beq_iff x y,
    )

elem-sorted_set : (x : Text) (xs : List Text) → elem x (sorted_set xs) ≡ elem x xs
unfolding sorted_set
elem-sorted_set x [] = refl
elem-sorted_set x (y ∷ ys) =
    ground (arith, elem-insert_sorted_set y x (sorted_set ys), elem-sorted_set x ys)

-- The texts of a list are in order, each before the next and none equal to it.
abbrev before_head : Text → List Text → Bool
before_head x [] = true
before_head x (y ∷ ys) = text_leb x y && not (x == y)

abbrev pub is_ascending : List Text → Bool
is_ascending [] = true
is_ascending (x ∷ xs) = let rest = is_ascending xs in before_head x xs && rest

text_leb_total : (s t : Text) → text_leb s t ≡ false → text_leb t s ≡ true
unfolding text_leb
text_leb_total [] t h = cc
text_leb_total (c ∷ s) [] h = refl
text_leb_total (c ∷ s) (d ∷ t) h = ground (arith, h, text_leb_total s t)

before_head-insert :
    (x id : Text) (xs : List Text)
    → before_head x xs ≡ true
    → text_leb x id ≡ true
    → x == id ≡ false
    → before_head x (insert_sorted_set id xs) ≡ true
unfolding insert_sorted_set
before_head-insert x id [] h le ne = ground (arith, le, ne)
before_head-insert x id (y ∷ ys) h le ne = ground (arith, h, le, ne)

insert-is_ascending :
    (id : Text) (xs : List Text)
    → is_ascending xs ≡ true
    → is_ascending (insert_sorted_set id xs) ≡ true
unfolding insert_sorted_set
insert-is_ascending id [] h = refl
insert-is_ascending id (x ∷ xs) h =
    let rest = and_right (before_head x xs) (is_ascending xs) h in
    let first = and_left (before_head x xs) (is_ascending xs) h in
    elim (Bool-cases (id == x)) [
      | inl same ↦ rw same h
      | inr differ ↦ elim (Bool-cases (text_leb id x)) [
        | inl le ↦ rw (differ, le) (both le differ h)
        | inr gt ↦
            rw (differ, gt)
              (both_parts
                (before_head-insert x id xs first (text_leb_total id x gt) (other_way id x differ))
                (insert-is_ascending id xs rest))
      ]
    ]
  where
    both_parts : {a b : Bool} → a ≡ true → b ≡ true → a && b ≡ true
    both_parts h k = ground (arith, h, k)

    both : {a b c : Bool} → a ≡ true → b ≡ false → c ≡ true → (a && not b) && c ≡ true
    both h k l = ground (arith, h, k, l)

    other_way : (x y : Text) → x == y ≡ false → y == x ≡ false
    other_way x y h = ground (arith, h, text_beq_iff x y, text_beq_iff y x)

sorted_set-is_ascending : (xs : List Text) → is_ascending (sorted_set xs) ≡ true
unfolding sorted_set
sorted_set-is_ascending [] = refl
sorted_set-is_ascending (x ∷ xs) =
    insert-is_ascending x (sorted_set xs) (sorted_set-is_ascending xs)

-- The repeated ids of a list, as a sorted set, are in order, each once, and are those that stand in
-- the list twice or more often.
pub record RepeatedIn (ids twice : List Text) : Type 0 where
  pub repeated : (x : Text) → elem x twice ≡ leb 2 (count x ids)
  pub ascending : is_ascending twice ≡ true

pub repeats-RepeatedIn : (ids : List Text) → RepeatedIn ids (sorted_set (repeats [] ids))
repeats-RepeatedIn ids = record {
  repeated = λ x. elem-sorted_set x (repeats [] ids) ∙ elem-repeats [] ids x;
  ascending = sorted_set-is_ascending (repeats [] ids);
}

-- A set is empty only of an empty list.
pub sorted_set-empty : (xs : List Text) → sorted_set xs ≡ [] → xs ≡ []
unfolding sorted_set insert_sorted_set
sorted_set-empty [] h = refl
sorted_set-empty (x ∷ xs) h =
    absurd_of (sym (elem_first x (sorted_set xs)) ∙ ap (λ ys. elem x ys) h)
  where
    absurd_of : {P : Type 0} → true ≡ false → P
    absurd_of h = cc

    elem_first : (x : Text) (ys : List Text) → elem x (insert_sorted_set x ys) ≡ true
    elem_first x ys = ground (arith, elem-insert_sorted_set x x ys, text_beq_iff x x)
