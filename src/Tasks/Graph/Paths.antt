-- ===== src/Tasks/Graph/Paths.antt =====
-- What it means that a node is reached along the edges.
use litehive.Base.{◌≡◌, true, List, elem}
use litehive.Base.Text.{Text, text_eq}

pub data Reaches (succ : Text → List Text) : Text → Text → Type 0 where
  here : (a : Text) → Reaches succ a a
  along : (a b c : Text) → elem b (succ a) ≡ true → Reaches succ b c → Reaches succ a c

-- No node is reached from one that it points to.
abbrev pub Acyclic : (Text → List Text) → Type 0
Acyclic succ = (a b : Text) → elem b (succ a) ≡ true → Reaches succ b a → ⊥

pub Reaches-trans :
    (succ : Text → List Text) (a b c : Text)
    → Reaches succ a b
    → Reaches succ b c
    → Reaches succ a c
Reaches-trans succ a b c (Reaches.here _) q = q
Reaches-trans succ a b c (Reaches.along _ m _ edge p) q =
    Reaches.along a m c edge (Reaches-trans succ m b c p q)
