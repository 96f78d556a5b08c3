-- ===== src/Ds/List/Ring/Push.antt =====
-- `init` makes an empty ring; `push_front` and `push_back` add a node at an end.
use qemu_risc_core.Prelude.{◌≡◌, refl, ◌≢◌, true, false, some, List, [], ◌∷◌, ◌++◌, arith, ◌==◌}
use qemu_risc_core.Ds.Heap.{Ptr, nullptr, Heap, update}
use qemu_risc_core.Ds.List.{init, push_front, push_back}
use qemu_risc_core.Ds.List.Linked.{
  has, Linked, has-append, append-Distinct, prev-mem, next-mem, Linked-append, Linked-frame,
  Linked-retarget,
}
use qemu_risc_core.Ds.List.Ring.{Ring, SameOutside}

-- `init` needs a sentinel at a node, and whatever its links were, the list is then empty.
pub init-Ring :
    (h : Heap) (list : Ptr)
    → h.allocated list ≡ true
    → list ≢ nullptr
    → (g : Heap) × (init list h ≡ some (tt, g)) × Ring g list [] × SameOutside (list ∷ []) h g
unfolding init
init-Ring h list here ne = (
  record h { next = update h.next list list; prev = update h.prev list list },
  rw (here, here),
  record {
    links = (ground arith, ground arith);
    distinct = (refl, tt);
    nodes = λ p i. ground arith;
    not_null = ground arith;
  },
  record { allocated = refl; next = λ p out. ground arith; prev = λ p out. ground arith },
)

-- A node that may be added: in no list, at a node and not null.
pub record Fresh (h : Heap) (list : Ptr) (xs : List Ptr) (node : Ptr) : Type 0 where
  pub out : has node (list ∷ xs) ≡ false
  pub is_node : h.allocated node ≡ true
  pub ne_null : (node == nullptr) ≡ false

module _ (h : Heap) (list : Ptr) (xs : List Ptr) (node : Ptr) (ring : Ring h list xs)
    (fresh : Fresh h list xs node) where
  abbrev appended : Heap
  appended = record h {
    next = update (update h.next node list) (h.prev list) node;
    prev = update (update h.prev node (h.prev list)) list node;
  }

  push_back-runs : push_back list node h ≡ some (tt, appended)
  unfolding push_back
  push_back-runs =
      let here = ring.nodes list (ground arith) in
      let last = ring.nodes (h.prev list) (prev-mem h list xs list ring.links) in
      let stays : update h.prev node (h.prev list) list ≡ h.prev list = ground (arith, fresh.out) in
      rw (fresh.ne_null, fresh.is_node, here, fresh.is_node, here, stays, last, here)

  -- `push_back` puts the node behind the others, and writes nothing else.
  pub push_back-snoc :
      (g : Heap) × (push_back list node h ≡ some (tt, g))
      × Ring g list (xs ++ node ∷ [])
      × SameOutside (list ∷ xs ++ node ∷ []) h g
  push_back-snoc =
      let last = prev-mem h list xs list ring.links in
      let out = fresh.out in
      let all = λ (p : Ptr). has-append p (list ∷ xs) (node ∷ []) in
      (
        appended,
        push_back-runs,
        record {
          links =
              Linked-append appended list xs node [] list
                (Linked-retarget h appended list xs list node ring.links ring.distinct
                  (λ p i ne. ground arith) (λ p i. ground (arith, ring.distinct)) (ground arith)
                  (ground arith))
                (ground arith, ground arith);
          distinct =
              append-Distinct (list ∷ xs) (node ∷ []) ring.distinct (refl, tt)
                (λ q i. ground arith);
          nodes = λ p i. ground (arith, all p, ring.nodes p, fresh.is_node);
          not_null = ground (arith, all nullptr, ring.not_null, fresh.ne_null);
        },
        record {
          allocated = refl;
          next = λ p o. ground (arith, all p);
          prev = λ p o. ground (arith, all p);
        },
      )

  abbrev prepended : Heap
  prepended = record h {
    next = update (update h.next node (h.next list)) list node;
    prev = update (update h.prev node list) (h.next list) node;
  }

  push_front-runs : push_front list node h ≡ some (tt, prepended)
  unfolding push_front
  push_front-runs =
      let here = ring.nodes list (ground arith) in
      let first = ring.nodes (h.next list) (next-mem h list xs list ring.links) in
      let stays : update h.next node (h.next list) list ≡ h.next list = ground (arith, fresh.out) in
      rw (fresh.ne_null, fresh.is_node, here, fresh.is_node, here, stays, first, here)

-- The chain behind the new first node.
prepended-Linked :
    (h : Heap) (list : Ptr) (xs : List Ptr) (node : Ptr) (ring : Ring h list xs)
    (fresh : Fresh h list xs node)
    → Linked (prepended h list xs node ring fresh) node xs list
prepended-Linked h list [] node ring fresh =
    let out = fresh.out in (ground (arith, ring.links), ground (arith, ring.links))
prepended-Linked h list (x ∷ xs) node ring fresh =
    let out = fresh.out in
    let distinct = ring.distinct in
    let (first, back, links) = ring.links in
    (
      ground arith,
      ground arith,
      Linked-frame h (prepended h list (x ∷ xs) node ring fresh) x xs list links
          (λ p i. ground arith) (λ p i. ground arith),
    )

module _ (h : Heap) (list : Ptr) (xs : List Ptr) (node : Ptr) (ring : Ring h list xs)
    (fresh : Fresh h list xs node) where
  -- `push_front` puts the node before the others, and writes nothing else.
  pub push_front-cons :
      (g : Heap) × (push_front list node h ≡ some (tt, g))
      × Ring g list (node ∷ xs)
      × SameOutside (list ∷ node ∷ xs) h g
  push_front-cons =
      let first = next-mem h list xs list ring.links in
      let out = fresh.out in
      let distinct = ring.distinct in
      (
        prepended h list xs node ring fresh,
        push_front-runs h list xs node ring fresh,
        record {
          links = (ground arith, ground arith, prepended-Linked h list xs node ring fresh);
          distinct = (ground arith, (ground arith, ring.distinct.1));
          nodes = λ p i. ground (arith, ring.nodes p, fresh.is_node);
          not_null = ground (arith, ring.not_null, fresh.ne_null);
        },
        record { allocated = refl; next = λ p o. ground arith; prev = λ p o. ground arith },
      )

-- A push of a null pointer does nothing, at either end.
pub push-nullptr :
    (h : Heap) (list : Ptr)
    → (push_back list nullptr h ≡ some (tt, h)) × (push_front list nullptr h ≡ some (tt, h))
unfolding push_back push_front
push-nullptr h list = (refl, refl)
