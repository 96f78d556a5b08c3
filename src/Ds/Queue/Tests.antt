-- ===== src/Ds/Queue/Tests.antt =====
-- An instance of the queue's order: 4 and 5 behind 2 and 3.
use qemu_risc_core.Prelude.{◌≡◌, refl, true, false, some, [], ◌∷◌}
use qemu_risc_core.Ds.Heap.{Heap, ◌>>◌}
use qemu_risc_core.Ds.List.Ring.{Ring}
use qemu_risc_core.Ds.List.Ring.Push.{Fresh}
use qemu_risc_core.Ds.List.Samples.{sample, sample-Ring, sample-Fresh}
use qemu_risc_core.Ds.Queue.Interface.{
  queue_ops, ask, put, take, is_empty, done, got, serve, plain, left, serve-equals_plain,
}
use qemu_risc_core.Ds.Queue.Fifo.{push_all, pop_all, pop_all-push_all}

five-Fresh : Fresh sample 1 (2 ∷ 3 ∷ []) 5
five-Fresh = record { out = refl; is_node = refl; ne_null = refl }

four-Fresh : Fresh sample 1 (3 ∷ []) 4
four-Fresh = record { out = refl; is_node = refl; ne_null = refl }

pop_all-push_all_run :
    (g : Heap) × ((push_all 1 (4 ∷ 5 ∷ []) >> pop_all 1 (2 ∷ 3 ∷ 4 ∷ 5 ∷ [])) sample
      ≡ some (2 ∷ 3 ∷ 4 ∷ 5 ∷ [], g))
    × Ring g 1 []
pop_all-push_all_run =
    pop_all-push_all sample 1 (2 ∷ 3 ∷ []) (4 ∷ 5 ∷ []) sample-Ring
      (sample-Fresh, refl, (five-Fresh, refl, tt))

serve-equals_plain_example :
    (g : Heap) × (serve queue_ops 1 (ask ∷ take ∷ put 4 ∷ take ∷ take ∷ take ∷ ask ∷ []) sample
      ≡ some (is_empty false ∷ got 2 ∷ done ∷ got 3 ∷ got 4 ∷ got 0 ∷ is_empty true ∷ [], g))
    × Ring g 1 []
unfolding plain left
serve-equals_plain_example =
    serve-equals_plain (ask ∷ take ∷ put 4 ∷ take ∷ take ∷ take ∷ ask ∷ []) sample 1 (2 ∷ 3 ∷ [])
      sample-Ring (tt, (tt, (four-Fresh, (tt, (tt, (tt, (tt, tt)))))))
