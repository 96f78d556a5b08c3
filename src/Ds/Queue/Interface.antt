-- ===== src/Ds/Queue/Interface.antt =====
-- kernel/lib/ds/queue.h: the operations of the class `Queue`, what its users may rely on, and any
-- series of calls.
use qemu_risc_core.Prelude.{◌≡◌, refl, ◌≢◌, Bool, true, some, List, [], ◌∷◌, ◌++◌}
use qemu_risc_core.Ds.Heap.{Ptr, nullptr, Heap, Cmd, pure, ◌>>=◌, ◌>>◌}
use qemu_risc_core.Ds.List.Ring.{Ring}
use qemu_risc_core.Ds.List.Ring.Push.{Fresh, init-Ring, push-nullptr}
use qemu_risc_core.Ds.List.Ring.Pop.{is_nil, empty-is_nil}
use qemu_risc_core.Ds.Queue.{init, empty, push, pop}
use qemu_risc_core.Ds.Queue.Fifo.{push-snoc, pop-cons, pop-nil}

pub record QueueOps : Type 0 where
  pub init : Ptr → Cmd (Unit {0})
  pub empty : Ptr → Cmd Bool
  pub push : Ptr → Ptr → Cmd (Unit {0})
  pub pop : Ptr → Cmd Ptr

-- `Holds h queue xs` says that the queue has the nodes `xs`, the oldest first.
pub record IsFifo (ops : QueueOps) (Holds : Heap → Ptr → List Ptr → Type 0) : Type 0 where
  pub inits :
      (h : Heap) (queue : Ptr)
      → h.allocated queue ≡ true
      → queue ≢ nullptr
      → (g : Heap) × (ops.init queue h ≡ some (tt, g))
        × Holds g queue []
        × (g.allocated ≡ h.allocated)
  pub tests :
      (h : Heap) (queue : Ptr) (xs : List Ptr)
      → Holds h queue xs
      → ops.empty queue h ≡ some (is_nil xs, h)
  pub adds :
      (h : Heap) (queue : Ptr) (xs : List Ptr) (node : Ptr)
      → Holds h queue xs
      → Fresh h queue xs node
      → (g : Heap) × (ops.push queue node h ≡ some (tt, g))
        × Holds g queue (xs ++ node ∷ [])
        × (g.allocated ≡ h.allocated)
  pub ignores_null : (h : Heap) (queue : Ptr) → ops.push queue nullptr h ≡ some (tt, h)
  pub takes :
      (h : Heap) (queue x : Ptr) (xs : List Ptr)
      → Holds h queue (x ∷ xs)
      → (g : Heap) × (ops.pop queue h ≡ some (x, g))
        × Holds g queue xs
        × (g.allocated ≡ h.allocated)
  pub takes_null : (h : Heap) (queue : Ptr) → Holds h queue [] → ops.pop queue h ≡ some (nullptr, h)

-- The calls of a client, and the answers to them.
pub data Call : Type 0 where
  ask : Call
  put : Ptr → Call
  take : Call

pub data Answer : Type 0 where
  is_empty : Bool → Answer
  done : Answer
  got : Ptr → Answer

pub answer : QueueOps → Ptr → Call → Cmd Answer
answer ops queue ask = do b ← ops.empty queue; pure (is_empty b)
answer ops queue (put node) = do ops.push queue node; pure done
answer ops queue take = do node ← ops.pop queue; pure (got node)

pub serve : QueueOps → Ptr → List Call → Cmd (List Answer)
serve ops queue [] = pure []
serve ops queue (c ∷ cs) = do a ← answer ops queue c; rest ← serve ops queue cs; pure (a ∷ rest)

-- The same on a sequence of nodes: the answer to a call, and what it leaves.
abbrev pub first : List Ptr → Ptr
first [] = nullptr
first (x ∷ xs) = x

abbrev pub rest : List Ptr → List Ptr
rest [] = []
rest (x ∷ xs) = xs

abbrev pub plain_answer : Call → List Ptr → Answer
plain_answer ask xs = is_empty (is_nil xs)
plain_answer (put node) xs = done
plain_answer take xs = got (first xs)

abbrev pub plain_next : Call → List Ptr → List Ptr
plain_next ask xs = xs
plain_next (put node) xs = xs ++ node ∷ []
plain_next take xs = rest xs

unfoldable pub plain : List Call → List Ptr → List Answer
plain [] xs = []
plain (c ∷ cs) xs = plain_answer c xs ∷ plain cs (plain_next c xs)

unfoldable pub left : List Call → List Ptr → List Ptr
left [] xs = xs
left (c ∷ cs) xs = left cs (plain_next c xs)

-- Each node that is put is a node, and not in the queue then.
abbrev pub Allows : Heap → Ptr → List Ptr → Call → Type 0
Allows h queue xs ask = Unit {0}
Allows h queue xs (put node) = Fresh h queue xs node
Allows h queue xs take = Unit {0}

abbrev pub AllAllowed : Heap → Ptr → List Ptr → List Call → Type 0
AllAllowed h queue xs [] = Unit {0}
AllAllowed h queue xs (c ∷ cs) = Allows h queue xs c × AllAllowed h queue (plain_next c xs) cs

Allows-allocated :
    (h g : Heap) (queue : Ptr) (xs : List Ptr) (c : Call)
    → g.allocated ≡ h.allocated
    → Allows h queue xs c
    → Allows g queue xs c
Allows-allocated h g queue xs ask e ok = tt
Allows-allocated h g queue xs (put node) e ok = record {
  out = ok.out;
  is_node = rw e ok.is_node;
  ne_null = ok.ne_null;
}
Allows-allocated h g queue xs take e ok = tt

AllAllowed-allocated :
    (h g : Heap) (queue : Ptr) (xs : List Ptr) (cs : List Call)
    → g.allocated ≡ h.allocated
    → AllAllowed h queue xs cs
    → AllAllowed g queue xs cs
AllAllowed-allocated h g queue xs [] e ok = tt
AllAllowed-allocated h g queue xs (c ∷ cs) e ok = (
  Allows-allocated h g queue xs c e ok.0,
  AllAllowed-allocated h g queue (plain_next c xs) cs e ok.1,
)

module _ (ops : QueueOps) (Holds : Heap → Ptr → List Ptr → Type 0) (laws : IsFifo ops Holds) where
  answer-plain :
      (c : Call) (h : Heap) (queue : Ptr) (xs : List Ptr)
      → Holds h queue xs
      → Allows h queue xs c
      → (g : Heap) × (answer ops queue c h ≡ some (plain_answer c xs, g))
        × Holds g queue (plain_next c xs)
        × (g.allocated ≡ h.allocated)
  unfolding answer
  answer-plain ask h queue xs holds ok = (h, rw (laws.tests h queue xs holds) refl, holds, refl)
  answer-plain (put node) h queue xs holds ok =
      let (g, runs, after, same) = laws.adds h queue xs node holds ok in
      (g, rw runs refl, after, same)
  answer-plain take h queue [] holds ok = (h, rw (laws.takes_null h queue holds) refl, holds, refl)
  answer-plain take h queue (x ∷ xs) holds ok =
      let (g, runs, after, same) = laws.takes h queue x xs holds in (g, rw runs refl, after, same)

  -- A client of anything that keeps the laws of a queue sees the sequence.
  pub serve-plain :
      (cs : List Call) (h : Heap) (queue : Ptr) (xs : List Ptr)
      → Holds h queue xs
      → AllAllowed h queue xs cs
      → (g : Heap) × (serve ops queue cs h ≡ some (plain cs xs, g)) × Holds g queue (left cs xs)
  unfolding serve plain left
  serve-plain [] h queue xs holds ok = (h, refl, holds)
  serve-plain (c ∷ cs) h queue xs holds ok =
      let (g, runs, after, same) = answer-plain c h queue xs holds ok.0 in
      let (k, more, end) =
        serve-plain cs g queue (plain_next c xs) after
          (AllAllowed-allocated h g queue (plain_next c xs) cs same ok.1) in
      (k, rw (runs, more) refl, end)

abbrev pub queue_ops : QueueOps
queue_ops = record { init = init; empty = empty; push = push; pop = pop }

pub queue_ops-IsFifo : IsFifo queue_ops Ring
unfolding init empty push
queue_ops-IsFifo = record {
  inits = λ h queue here ne.
      let (g, runs, ring, same) = init-Ring h queue here ne in (g, runs, ring, same.allocated);
  tests = empty-is_nil;
  adds = λ h queue xs node ring fresh.
      let (g, runs, after, same) = push-snoc h queue xs node ring fresh in
      (g, runs, after, same.allocated);
  ignores_null = λ h queue. (push-nullptr h queue).0;
  takes = λ h queue x xs ring.
      let (g, runs, after) = pop-cons h queue x xs ring in (g, runs, after.0, after.1.allocated);
  takes_null = pop-nil;
}

-- For any series of calls of `empty`, `push` and `pop` on a queue, each push of a node that is not in
-- the queue at that time, the answers are those of a plain sequence, to which a push appends and
-- from which a pop takes the first node, or a null pointer if there is none; the queue ends with
-- the nodes of that sequence.
pub serve-equals_plain :
    (cs : List Call) (h : Heap) (queue : Ptr) (xs : List Ptr)
    → Ring h queue xs
    → AllAllowed h queue xs cs
    → (g : Heap) × (serve queue_ops queue cs h ≡ some (plain cs xs, g)) × Ring g queue (left cs xs)
serve-equals_plain = serve-plain queue_ops Ring queue_ops-IsFifo
