-- ===== src/Ds/List/Ring/Remove.antt =====
-- `remove` takes one node out of a ring, wherever it stands.
use mathlib.Core.List.{append-nil}
use qemu_risc_core.Prelude.{◌≡◌, refl, ◌≢◌, true, some, List, [], ◌∷◌, ◌++◌, arith}
use qemu_risc_core.Ds.Heap.{Ptr, nullptr, Heap, update}
use qemu_risc_core.Ds.List.{remove}
use qemu_risc_core.Ds.List.Linked.{
  Distinct, Linked, has-append, Distinct-append, append-Distinct, prev-mem, next-mem, Linked-append,
  Linked-split, Linked-frame, Linked-retarget,
}
use qemu_risc_core.Ds.List.Ring.{Ring, SameOutside}

-- The heap after `remove`.
abbrev pub unlinked : Heap → Ptr → Heap
unlinked h x = record h {
  next = update h.next (h.prev x) (h.next x);
  prev = update h.prev (h.next x) (h.prev x);
}

remove-runs :
    (h : Heap) (x : Ptr)
    → h.allocated x ≡ true
    → h.allocated (h.prev x) ≡ true
    → h.allocated (h.next x) ≡ true
    → x ≢ h.prev x
    → remove x h ≡ some (tt, unlinked h x)
unfolding remove
remove-runs h x here before after ne =
    let stays : update h.next (h.prev x) (h.next x) x ≡ h.next x = ground arith in
    rw (here, here, before, here, here, stays, after)

module _ (h : Heap) (list : Ptr) (xs : List Ptr) (x : Ptr) where
  -- The chain up to `x` now ends in what followed `x`.
  before-Linked :
      (ys : List Ptr) (n : Ptr)
      → h.next x ≡ n
      → Linked h list xs x
      → Linked h x ys list
      → Distinct (list ∷ xs ++ x ∷ ys)
      → Linked (unlinked h x) list xs n
  before-Linked ys n e l m d =
      let (front, back, apart) = Distinct-append (list ∷ xs) (x ∷ ys) d in
      Linked-retarget h (unlinked h x) list xs x n l front (λ p i ne. ground arith)
        (λ p i. ground (arith, next-mem h x ys list m, apart p)) (ground arith) (ground arith)

  unlinked-Linked :
      (ys : List Ptr)
      → Linked h list xs x
      → Linked h x ys list
      → Distinct (list ∷ xs ++ x ∷ ys)
      → Linked (unlinked h x) list (xs ++ ys) list
  unlinked-Linked [] l m d = rw append-nil (before-Linked [] list m.0 l m d)
  unlinked-Linked (y ∷ ys) l m d =
      let (front, back, apart) = Distinct-append (list ∷ xs) (x ∷ y ∷ ys) d in
      Linked-append (unlinked h x) list xs y ys list (before-Linked (y ∷ ys) y m.0 l m d) (
        Linked-frame h (unlinked h x) y ys list m.2
          (λ p i. ground (arith, prev-mem h list xs x l, apart p))
          (λ p i. ground (arith, apart list)))

  module _ (ys : List Ptr) (ring : Ring h list (xs ++ x ∷ ys)) where
    -- `remove` reads and writes nodes only, leaves a ring without `x`, and changes no node outside.
    pub remove-Ring :
        (g : Heap) × (remove x h ≡ some (tt, g))
        × Ring g list (xs ++ ys)
        × SameOutside (list ∷ xs ++ x ∷ ys) h g
    unfolding remove
    remove-Ring =
        let (l, m) = Linked-split h list xs x ys list ring.links in
        let (front, back, apart) = Distinct-append (list ∷ xs) (x ∷ ys) ring.distinct in
        let prev_in = prev-mem h list xs x l in
        let next_in = next-mem h x ys list m in
        let all = λ (p : Ptr). has-append p (list ∷ xs) (x ∷ ys) in
        let rest = λ (p : Ptr). has-append p (list ∷ xs) ys in
        (
          unlinked h x,
          remove-runs h x (ring.nodes x (ground (arith, all x)))
              (ring.nodes (h.prev x) (ground (arith, all (h.prev x))))
              (ring.nodes (h.next x) (ground (arith, all (h.next x)))) (ground (arith, apart x)),
          record {
            links = unlinked-Linked ys l m ring.distinct;
            distinct = append-Distinct (list ∷ xs) ys front back.1 (λ q i. ground (arith, apart q));
            nodes = λ p i. ring.nodes p (ground (arith, all p, rest p));
            not_null = ground (arith, all nullptr, rest nullptr, ring.not_null);
          },
          record {
            allocated = refl;
            next = λ p out. ground (arith, all p);
            prev = λ p out. ground (arith, all p);
          },
        )
