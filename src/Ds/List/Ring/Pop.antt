-- ===== src/Ds/List/Ring/Pop.antt =====
-- `empty` says whether the ring has a node; `pop_front` and `pop_back` take the first and the last.
use mathlib.Core.List.{append-nil}
use qemu_risc_core.Prelude.{◌≡◌, refl, Bool, true, false, some, List, [], ◌∷◌, ◌++◌, arith, ◌==◌}
use qemu_risc_core.Ds.Heap.{Ptr, nullptr, Heap}
use qemu_risc_core.Ds.List.{empty, pop_front, pop_back}
use qemu_risc_core.Ds.List.Linked.{Linked-split}
use qemu_risc_core.Ds.List.Ring.{Ring, SameOutside}
use qemu_risc_core.Ds.List.Ring.Remove.{remove-Ring}

abbrev pub is_nil : List Ptr → Bool
is_nil [] = true
is_nil (x ∷ xs) = false

-- `empty` answers for every ring, and changes nothing.
pub empty-is_nil :
    (h : Heap) (list : Ptr) (xs : List Ptr) → Ring h list xs → empty list h ≡ some (is_nil xs, h)
unfolding empty
empty-is_nil h list [] ring =
    let at : (h.next list == list) ≡ true = ground (arith, ring.links) in
    rw (ring.nodes list (ground arith), at)
empty-is_nil h list (x ∷ xs) ring =
    let at : (h.next list == list) ≡ false = ground (arith, ring.links, ring.distinct) in
    rw (ring.nodes list (ground arith), at)

-- What taking `x` out of a list, and leaving `rest`, does.
abbrev pub Pops : Heap → Ptr → Ptr → List Ptr → List Ptr → Heap → Type 0
Pops h list x all rest g = Ring g list rest × SameOutside (list ∷ all) h g

pub pop_front-cons :
    (h : Heap) (list x : Ptr) (xs : List Ptr)
    → Ring h list (x ∷ xs)
    → (g : Heap) × (pop_front list h ≡ some (x, g)) × Pops h list x (x ∷ xs) xs g
unfolding pop_front
pop_front-cons h list x xs ring =
    let (g, runs, after, same) = remove-Ring h list [] x xs ring in
    let here = ring.nodes list (ground arith) in
    (g, rw (empty-is_nil h list (x ∷ xs) ring, here, ring.links.0, runs), (after, same))

pub pop_front-nil : (h : Heap) (list : Ptr) → Ring h list [] → pop_front list h ≡ some (nullptr, h)
unfolding pop_front
pop_front-nil h list ring = rw (empty-is_nil h list [] ring)

pub pop_back-snoc :
    (h : Heap) (list : Ptr) (xs : List Ptr) (x : Ptr)
    → Ring h list (xs ++ x ∷ [])
    → (g : Heap) × (pop_back list h ≡ some (x, g)) × Pops h list x (xs ++ x ∷ []) xs g
unfolding pop_back
pop_back-snoc h list xs x ring =
    let (g, runs, after, same) = remove-Ring h list xs x [] ring in
    let here = ring.nodes list (ground arith) in
    let last : h.prev list ≡ x = (Linked-split h list xs x [] list ring.links).1.1 in
    (
      g,
      rw (empty-is_nil h list (xs ++ x ∷ []) ring, not_nil xs, here, last, runs),
      (rw append-nil at after, same),
    )
  where
    not_nil : (ys : List Ptr) → is_nil (ys ++ x ∷ []) ≡ false
    not_nil [] = refl
    not_nil (y ∷ ys) = refl

pub pop_back-nil : (h : Heap) (list : Ptr) → Ring h list [] → pop_back list h ≡ some (nullptr, h)
unfolding pop_back
pop_back-nil h list ring = rw (empty-is_nil h list [] ring)
