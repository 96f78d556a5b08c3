-- ===== src/Ds/List/Linked.antt =====
-- Chains of nodes: from `a` the links lead through `xs` to `b`, forwards and backwards.
use qemu_risc_core.Prelude.{
  ◌≡◌, refl, ◌∙◌, ◌≢◌, Bool, true, false, ◌||◌, List, [], ◌∷◌, ◌++◌, arith, ◌==◌,
}
use qemu_risc_core.Ds.Heap.{Ptr, Heap}

abbrev pub has : Ptr → List Ptr → Bool
has p [] = false
has p (x ∷ xs) = (p == x) || has p xs

abbrev pub Distinct : List Ptr → Type 0
Distinct [] = Unit {0}
Distinct (x ∷ xs) = (has x xs ≡ false) × Distinct xs

abbrev pub Linked : Heap → Ptr → List Ptr → Ptr → Type 0
Linked h a [] b = (h.next a ≡ b) × (h.prev b ≡ a)
Linked h a (x ∷ xs) b = (h.next a ≡ x) × (h.prev x ≡ a) × Linked h x xs b

pub has-append : (p : Ptr) (xs ys : List Ptr) → has p (xs ++ ys) ≡ (has p xs || has p ys)
has-append p [] ys = refl
has-append p (x ∷ xs) ys = ground (arith, has-append p xs ys)

-- The parts of a list of distinct nodes are distinct, and share none.
pub Distinct-append :
    (xs ys : List Ptr)
    → Distinct (xs ++ ys)
    → Distinct xs × Distinct ys × ((q : Ptr) → has q xs ≡ true → has q ys ≡ false)
Distinct-append [] ys d = (tt, d, λ q i. cc)
Distinct-append (x ∷ xs) ys d =
    let (dx, dy, apart) = Distinct-append xs ys d.1 in
    (
      (ground (arith, has-append x xs ys), dx),
      dy,
      λ q i. ground (arith, apart q, has-append x xs ys),
    )

pub append-Distinct :
    (xs ys : List Ptr)
    → Distinct xs
    → Distinct ys
    → ((q : Ptr) → has q xs ≡ true → has q ys ≡ false)
    → Distinct (xs ++ ys)
append-Distinct [] ys dx dy apart = dy
append-Distinct (x ∷ xs) ys dx dy apart = (
  ground (arith, has-append x xs ys, apart x),
  append-Distinct xs ys dx.1 dy (λ q i. apart q (ground arith)),
)

pub prev-mem :
    (h : Heap) (a : Ptr) (xs : List Ptr) (b : Ptr)
    → Linked h a xs b
    → has (h.prev b) (a ∷ xs) ≡ true
prev-mem h a [] b l = ground arith
prev-mem h a (x ∷ xs) b l = ground (arith, prev-mem h x xs b l.2)

pub next-mem :
    (h : Heap) (a : Ptr) (xs : List Ptr) (b : Ptr)
    → Linked h a xs b
    → has (h.next a) (b ∷ xs) ≡ true
next-mem h a [] b l = ground arith
next-mem h a (x ∷ xs) b l = ground arith

pub Linked-append :
    (h : Heap) (a : Ptr) (xs : List Ptr) (x : Ptr) (ys : List Ptr) (b : Ptr)
    → Linked h a xs x
    → Linked h x ys b
    → Linked h a (xs ++ x ∷ ys) b
Linked-append h a [] x ys b l m = (l.0, l.1, m)
Linked-append h a (z ∷ zs) x ys b l m = (l.0, l.1, Linked-append h z zs x ys b l.2 m)

pub Linked-split :
    (h : Heap) (a : Ptr) (xs : List Ptr) (x : Ptr) (ys : List Ptr) (b : Ptr)
    → Linked h a (xs ++ x ∷ ys) b
    → Linked h a xs x × Linked h x ys b
Linked-split h a [] x ys b l = ((l.0, l.1), l.2)
Linked-split h a (z ∷ zs) x ys b l =
    let (m, n) = Linked-split h z zs x ys b l.2 in ((l.0, l.1, m), n)

module _ (h g : Heap) where
  -- A chain survives where its own links do.
  pub Linked-frame :
      (a : Ptr) (xs : List Ptr) (b : Ptr)
      → Linked h a xs b
      → ((p : Ptr) → has p (a ∷ xs) ≡ true → g.next p ≡ h.next p)
      → ((p : Ptr) → has p (b ∷ xs) ≡ true → g.prev p ≡ h.prev p)
      → Linked g a xs b
  Linked-frame a [] b l nexts prevs = (nexts a (ground arith) ∙ l.0, prevs b (ground arith) ∙ l.1)
  Linked-frame a (x ∷ xs) b l nexts prevs = (
    nexts a (ground arith) ∙ l.0,
    prevs x (ground arith) ∙ l.1,
    Linked-frame x xs b l.2 (λ p i. nexts p (ground arith)) (λ p i. prevs p (ground arith)),
  )

  -- The last link turned to `n`.
  pub Linked-retarget :
      (a : Ptr) (xs : List Ptr) (b n : Ptr)
      → Linked h a xs b
      → Distinct (a ∷ xs)
      → ((p : Ptr) → has p (a ∷ xs) ≡ true → p ≢ h.prev b → g.next p ≡ h.next p)
      → ((p : Ptr) → has p xs ≡ true → g.prev p ≡ h.prev p)
      → g.next (h.prev b) ≡ n
      → g.prev n ≡ h.prev b
      → Linked g a xs n
  Linked-retarget a [] b n l apart nexts prevs there back = (rw l.1 at there, back ∙ l.1)
  Linked-retarget a (x ∷ xs) b n l apart nexts prevs there back = (
    nexts a (ground arith) (ground (arith, prev-mem h x xs b l.2)) ∙ l.0,
    prevs x (ground arith) ∙ l.1,
    Linked-retarget x xs b n l.2 apart.1 (λ p i. nexts p (ground arith))
        (λ p i. prevs p (ground arith)) there back,
  )
