-- ===== src/Ds/Queue/Fifo.antt =====
-- The queue over a ring: `push` adds at the back and `pop` takes at the front.
use mathlib.Core.List.{append-nil, append_assoc}
use qemu_risc_core.Prelude.{◌≡◌, refl, false, some, List, [], ◌∷◌, ◌++◌, arith}
use qemu_risc_core.Ds.Heap.{Ptr, nullptr, Heap, Cmd, pure, ◌>>=◌, ◌>>◌}
use qemu_risc_core.Ds.List.Linked.{has, has-append}
use qemu_risc_core.Ds.List.Ring.{Ring, SameOutside}
use qemu_risc_core.Ds.List.Ring.Push.{Fresh, push_back-snoc}
use qemu_risc_core.Ds.List.Ring.Pop.{Pops, empty-is_nil, pop_front-cons}
use qemu_risc_core.Ds.Queue.{push, pop}

pub push-snoc :
    (h : Heap) (queue : Ptr) (xs : List Ptr) (node : Ptr)
    → Ring h queue xs
    → Fresh h queue xs node
    → (g : Heap) × (push queue node h ≡ some (tt, g))
      × Ring g queue (xs ++ node ∷ [])
      × SameOutside (queue ∷ xs ++ node ∷ []) h g
unfolding push
push-snoc h queue xs node ring fresh = push_back-snoc h queue xs node ring fresh

pub pop-cons :
    (h : Heap) (queue x : Ptr) (xs : List Ptr)
    → Ring h queue (x ∷ xs)
    → (g : Heap) × (pop queue h ≡ some (x, g)) × Pops h queue x (x ∷ xs) xs g
unfolding pop
pop-cons h queue x xs ring =
    rw (empty-is_nil h queue (x ∷ xs) ring) (pop_front-cons h queue x xs ring)

pub pop-nil : (h : Heap) (queue : Ptr) → Ring h queue [] → pop queue h ≡ some (nullptr, h)
unfolding pop
pop-nil h queue ring = rw (empty-is_nil h queue [] ring)

-- Several pushes, and pops until the queue is empty.
pub push_all : Ptr → List Ptr → Cmd (Unit {0})
push_all queue [] = pure tt
push_all queue (x ∷ xs) = do push queue x; push_all queue xs

-- As many pops as `xs` has nodes.
pub pop_all : Ptr → List Ptr → Cmd (List Ptr)
pop_all queue [] = pure []
pop_all queue (x ∷ xs) = do node ← pop queue; rest ← pop_all queue xs; pure (node ∷ rest)

-- Nodes that may be pushed one after the other.
abbrev pub AllFresh : Heap → Ptr → List Ptr → List Ptr → Type 0
AllFresh h queue xs [] = Unit {0}
AllFresh h queue xs (n ∷ ns) = Fresh h queue xs n × (has n ns ≡ false) × AllFresh h queue xs ns

AllFresh-push :
    (h g : Heap) (queue : Ptr) (xs ns : List Ptr) (n : Ptr)
    → g.allocated ≡ h.allocated
    → has n ns ≡ false
    → AllFresh h queue xs ns
    → AllFresh g queue (xs ++ n ∷ []) ns
AllFresh-push h g queue xs [] n e out all = tt
AllFresh-push h g queue xs (m ∷ ns) n e out (fresh, apart, all) = (
  record {
    out = ground (arith, has-append m (queue ∷ xs) (n ∷ []), fresh.out);
    is_node = rw e fresh.is_node;
    ne_null = fresh.ne_null;
  },
  apart,
  AllFresh-push h g queue xs ns n e (ground arith) all,
)

pub push_all-append :
    (queue : Ptr) (ns : List Ptr) (h : Heap) (xs : List Ptr)
    → Ring h queue xs
    → AllFresh h queue xs ns
    → (g : Heap) × (push_all queue ns h ≡ some (tt, g)) × Ring g queue (xs ++ ns)
unfolding push_all
push_all-append queue [] h xs ring fresh = (h, refl, rw append-nil ring)
push_all-append queue (n ∷ ns) h xs ring (fresh, apart, all) =
    let (g, runs, after, same) = push-snoc h queue xs n ring fresh in
    let (k, rest, done) =
      push_all-append queue ns g (xs ++ n ∷ []) after
        (AllFresh-push h g queue xs ns n same.allocated apart all) in
    (k, rw (runs, rest), rw append_assoc at done)

pub pop_all-order :
    (queue : Ptr) (xs : List Ptr) (h : Heap)
    → Ring h queue xs
    → (g : Heap) × (pop_all queue xs h ≡ some (xs, g)) × Ring g queue []
unfolding pop_all
pop_all-order queue [] h ring = (h, refl, ring)
pop_all-order queue (x ∷ xs) h ring =
    let (g, runs, after) = pop-cons h queue x xs ring in
    let (k, rest, done) = pop_all-order queue xs g after.0 in (k, rw (runs, rest), done)

-- First in, first out: what is pushed comes out in order, behind what was in the queue, and the
-- queue is empty in the end.
pub pop_all-push_all :
    (h : Heap) (queue : Ptr) (xs ns : List Ptr)
    → Ring h queue xs
    → AllFresh h queue xs ns
    → (g : Heap) × ((push_all queue ns >> pop_all queue (xs ++ ns)) h ≡ some (xs ++ ns, g))
      × Ring g queue []
pop_all-push_all h queue xs ns ring fresh =
    let (g, runs, after) = push_all-append queue ns h xs ring fresh in
    let (k, pops, done) = pop_all-order queue (xs ++ ns) g after in (k, rw (runs, pops), done)
