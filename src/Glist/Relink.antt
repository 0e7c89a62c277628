-- ===== src/Glist/Relink.antt =====
-- How the writes of an insertion and of a removal change the chains of a list, at any place and
-- whatever stands before the first and behind the last node.
use ukernel_mp.Base.{
  ℕ, ◌≡◌, ◌∙◌, false, List, [], ◌∷◌, ◌++◌, update, update_ne, update_self, head_or, last_or, has,
  IsDistinct, has-last_or, has-append_false, ne_of_has, ne_of_head, not_has_around,
  IsDistinct-append, IsDistinct-erase,
}
use mathlib.Core.List.{append-nil}
use ukernel_mp.Glist.Chain.{
  Nexts, Prevs, Nexts-append, Nexts-split, Prevs-append, Prevs-split, Nexts-update, Prevs-update,
  Nexts-relink, Prevs-relink,
}

pub Nexts-insert :
    (nx : ℕ → ℕ) (x : ℕ) (xs ys : List ℕ) (n node : ℕ)
    → Nexts nx (x ∷ xs ++ ys) n
    → IsDistinct (x ∷ xs ++ ys)
    → has node (x ∷ xs ++ ys) ≡ false
    → Nexts (update (update nx node (head_or ys n)) (last_or x xs) node) (x ∷ xs ++ node ∷ ys) n
Nexts-insert nx x xs ys n node h d out =
    let (front, back) = Nexts-split nx (x ∷ xs) ys n h in
    let (dx, dy, apart) = IsDistinct-append (x ∷ xs) ys d in
    let (ox, oy) = has-append_false node (x ∷ xs) ys out in
    let nx' = update nx node (head_or ys n) in
    let l = last_or x xs in
    let is = has-last_or x xs in
    Nexts-append (update nx' l node) (x ∷ xs) (node ∷ ys) n
      (Nexts-relink nx' x xs (head_or ys n) node
        (Nexts-update nx (x ∷ xs) (head_or ys n) node (head_or ys n) front ox) dx)
      (
        update_ne nx' node (ne_of_has node l (x ∷ xs) ox is) ∙ update_self nx node (head_or ys n),
        Nexts-update nx' ys n l node (Nexts-update nx ys n node (head_or ys n) back oy)
            (apart l is),
      )

pub Prevs-insert :
    (pv : ℕ → ℕ) (p : ℕ) (xs : List ℕ) (y : ℕ) (ys : List ℕ) (node : ℕ)
    → Prevs pv p (xs ++ y ∷ ys)
    → IsDistinct (xs ++ y ∷ ys)
    → has node (xs ++ y ∷ ys) ≡ false
    → Prevs (update (update pv node (last_or p xs)) y node) p (xs ++ node ∷ y ∷ ys)
Prevs-insert pv p xs y ys node h d out =
    let (front, back) = Prevs-split pv p xs (y ∷ ys) h in
    let (dx, dy, apart) = IsDistinct-append xs (y ∷ ys) d in
    let (ox, oy) = has-append_false node xs (y ∷ ys) out in
    let pv' = update pv node (last_or p xs) in
    Prevs-append (update pv' y node) p xs (node ∷ y ∷ ys)
      (Prevs-update pv' p xs y node (Prevs-update pv p xs node (last_or p xs) front ox)
        (not_has_around xs y ys d).0)
      (
        update_ne pv' node (ne_of_head node y ys oy) ∙ update_self pv node (last_or p xs),
        Prevs-relink pv' (last_or p xs) y ys node
            (Prevs-update pv (last_or p xs) (y ∷ ys) node (last_or p xs) back oy) dy.0,
      )

-- Behind all.
pub Nexts-append_one :
    (nx : ℕ → ℕ) (x : ℕ) (xs : List ℕ) (n node : ℕ)
    → Nexts nx (x ∷ xs) n
    → IsDistinct (x ∷ xs)
    → has node (x ∷ xs) ≡ false
    → Nexts (update (update nx node n) (last_or x xs) node) (x ∷ xs ++ node ∷ []) n
Nexts-append_one nx x xs n node h d out =
    Nexts-insert nx x xs [] n node (rw append-nil h) (rw append-nil d) (rw append-nil out)

-- Behind all: only the new node is written.
pub Prevs-append_one :
    (pv : ℕ → ℕ) (p : ℕ) (xs : List ℕ) (node : ℕ)
    → Prevs pv p xs
    → has node xs ≡ false
    → Prevs (update pv node (last_or p xs)) p (xs ++ node ∷ [])
Prevs-append_one pv p xs node h out =
    Prevs-append (update pv node (last_or p xs)) p xs (node ∷ [])
      (Prevs-update pv p xs node (last_or p xs) h out) (update_self pv node (last_or p xs), tt)

pub Nexts-unlink :
    (nx : ℕ → ℕ) (x : ℕ) (xs : List ℕ) (node : ℕ) (ys : List ℕ) (n : ℕ)
    → Nexts nx (x ∷ xs ++ node ∷ ys) n
    → IsDistinct (x ∷ xs ++ node ∷ ys)
    → Nexts (update nx (last_or x xs) (head_or ys n)) (x ∷ xs ++ ys) n
Nexts-unlink nx x xs node ys n h d =
    let (front, back) = Nexts-split nx (x ∷ xs) (node ∷ ys) n h in
    let (dx, dy, apart) = IsDistinct-append (x ∷ xs) (node ∷ ys) d in
    let l = last_or x xs in
    let beyond : has l ys ≡ false =
      (has-append_false l (node ∷ []) ys (apart l (has-last_or x xs))).1 in
    Nexts-append (update nx l (head_or ys n)) (x ∷ xs) ys n
      (Nexts-relink nx x xs node (head_or ys n) front dx)
      (Nexts-update nx ys n l (head_or ys n) back.1 beyond)

pub Prevs-unlink :
    (pv : ℕ → ℕ) (p : ℕ) (xs : List ℕ) (node y : ℕ) (ys : List ℕ)
    → Prevs pv p (xs ++ node ∷ y ∷ ys)
    → IsDistinct (xs ++ node ∷ y ∷ ys)
    → Prevs (update pv y (last_or p xs)) p (xs ++ y ∷ ys)
Prevs-unlink pv p xs node y ys h d =
    let (front, back) = Prevs-split pv p xs (node ∷ y ∷ ys) h in
    let d' = (IsDistinct-erase xs (y ∷ ys) node d).0 in
    let (oy, o) = not_has_around xs y ys d' in
    Prevs-append (update pv y (last_or p xs)) p xs (y ∷ ys)
      (Prevs-update pv p xs y (last_or p xs) front oy)
      (Prevs-relink pv node y ys (last_or p xs) back.1 o)
