-- ===== src/Ds/List/Samples.antt =====
-- A ring for the tests: a sentinel at 1 and the nodes 2 and 3, with 4 and 5 free.
use qemu_risc_core.Prelude.{refl, ◌&&◌, [], ◌∷◌, arith, ltb, ◌==◌, if◌then◌else◌}
use qemu_risc_core.Ds.Heap.{Heap}
use qemu_risc_core.Ds.List.Ring.{Ring}
use qemu_risc_core.Ds.List.Ring.Push.{Fresh}

abbrev pub sample : Heap
sample = record {
  allocated = λ p. ltb 0 p && ltb p 8;
  next = λ p. if p == 1 then 2 else if p == 2 then 3 else 1;
  prev = λ p. if p == 1 then 3 else if p == 2 then 1 else 2;
}

pub sample-Ring : Ring sample 1 (2 ∷ 3 ∷ [])
sample-Ring = record {
  links = (refl, refl, (refl, refl, (refl, refl)));
  distinct = (refl, (refl, (refl, tt)));
  nodes = λ p i. ground arith;
  not_null = refl;
}

pub sample-Fresh : Fresh sample 1 (2 ∷ 3 ∷ []) 4
sample-Fresh = record { out = refl; is_node = refl; ne_null = refl }
