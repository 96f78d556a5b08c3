-- ===== src/Ds/List/Tests.antt =====
-- Runs and instances of the list: a sentinel at 1 and the nodes 2 and 3, with 4 free.
use qemu_risc_core.Prelude.{◌≡◌, refl, false, some, [], ◌∷◌, arith}
use qemu_risc_core.Ds.Heap.{Ptr, Heap, ◌>>◌}
use qemu_risc_core.Ds.List.{init, push_front, push_back, pop_front, pop_back, remove, empty}
use qemu_risc_core.Ds.List.Samples.{sample, sample-Ring, sample-Fresh}
use qemu_risc_core.Ds.List.Ring.{Ring, SameOutside}
use qemu_risc_core.Ds.List.Ring.Remove.{remove-Ring}
use qemu_risc_core.Ds.List.Ring.Pop.{empty-is_nil, Pops, pop_front-cons, pop_back-snoc}
use qemu_risc_core.Ds.List.Ring.Push.{init-Ring, push_back-snoc, push_front-cons}

abbrev fifo_run : Heap → Ptr
fifo_run h = elim ((push_back 1 4 >> (pop_front 1 >> pop_back 1)) h) [ some (p, g) ↦ p | _ ↦ 0 ]

fifo_run_test : fifo_run sample ≡ 4
unfolding push_back pop_front pop_back empty remove
fifo_run_test = refl

init-Ring_run :
    (g : Heap) × (init 5 sample ≡ some (tt, g)) × Ring g 5 [] × SameOutside (5 ∷ []) sample g
init-Ring_run = init-Ring sample 5 refl (omega arith)

empty-is_nil_run : empty 1 sample ≡ some (false, sample)
empty-is_nil_run = empty-is_nil sample 1 (2 ∷ 3 ∷ []) sample-Ring

push_back-snoc_example :
    (g : Heap) × (push_back 1 4 sample ≡ some (tt, g))
    × Ring g 1 (2 ∷ 3 ∷ 4 ∷ [])
    × SameOutside (1 ∷ 2 ∷ 3 ∷ 4 ∷ []) sample g
push_back-snoc_example = push_back-snoc sample 1 (2 ∷ 3 ∷ []) 4 sample-Ring sample-Fresh

push_front-cons_run :
    (g : Heap) × (push_front 1 4 sample ≡ some (tt, g))
    × Ring g 1 (4 ∷ 2 ∷ 3 ∷ [])
    × SameOutside (1 ∷ 4 ∷ 2 ∷ 3 ∷ []) sample g
push_front-cons_run = push_front-cons sample 1 (2 ∷ 3 ∷ []) 4 sample-Ring sample-Fresh

remove-Ring_example :
    (g : Heap) × (remove 2 sample ≡ some (tt, g))
    × Ring g 1 (3 ∷ [])
    × SameOutside (1 ∷ 2 ∷ 3 ∷ []) sample g
remove-Ring_example = remove-Ring sample 1 [] 2 (3 ∷ []) sample-Ring

pop_front-cons_run :
    (g : Heap) × (pop_front 1 sample ≡ some (2, g)) × Pops sample 1 2 (2 ∷ 3 ∷ []) (3 ∷ []) g
pop_front-cons_run = pop_front-cons sample 1 2 (3 ∷ []) sample-Ring

pop_back-snoc_run :
    (g : Heap) × (pop_back 1 sample ≡ some (3, g)) × Pops sample 1 3 (2 ∷ 3 ∷ []) (2 ∷ []) g
pop_back-snoc_run = pop_back-snoc sample 1 (2 ∷ []) 3 sample-Ring
