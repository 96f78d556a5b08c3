-- ===== src/Arch/Sv39/Encoding.antt =====
-- The encoding of page table entries and addresses, as arithmetic.
use qemu_risc_core.Prelude.{
  ℕ, ◌+◌, ◌*◌, ◌/◌, ◌%◌, ◌^◌, ◌<◌, ◌≡◌, sym, ◌∙◌, bit_or, true, not, arith, ◌==◌, u64,
}
use qemu_risc_core.Prelude.Bits.{bit_and-low_mask, bit_and-high_mask, bit_or-fields, bit_or-one}
use qemu_risc_core.Mm.Page.{is_page_aligned, page_offset}
use qemu_risc_core.Mm.Page.Align.{is_page_aligned_lem, page_offset_lem}
use qemu_risc_core.Arch.Sv39.{vpn_index, make_pte, pte_to_pa, pte_valid, pte_leaf, pte_v}

pub vpn_index_lem : (va level : ℕ) → vpn_index va level ≡ va / 2 ^ (12 + 9 * level) % 512
unfolding vpn_index
vpn_index_lem va level = bit_and-low_mask 9 (va / 2 ^ (12 + 9 * level))

pub pte_valid_lem : (pte : ℕ) → pte_valid pte ≡ (pte % 2 == 1)
unfolding pte_valid
pte_valid_lem pte = rw (bit_and-low_mask 1 pte) (ground arith)

pub pte_leaf_lem : (pte : ℕ) → pte_leaf pte ≡ not (pte / 2 % 8 == 0)
unfolding pte_leaf
pte_leaf_lem pte = rw (bit_and-high_mask 1 pte 7, bit_and-low_mask 3 (pte / 2)) (ground arith)

-- With flags of ten bits an entry is the frame number above the flags.
pub make_pte_lem :
    (pa flags : ℕ) → pa < 2 ^ 64 → flags < 1024 → make_pte pa flags ≡ pa / 4096 * 1024 + flags
unfolding make_pte
make_pte_lem pa flags fits small =
    let frame : u64 (pa / 4096 * 1024) ≡ pa / 4096 * 1024 = omega arith in
    rw frame (bit_or-fields (pa / 4096) 10 flags small)

-- The address, the validity and the kind of an entry that `make_pte` builds are those of its
-- arguments, and the entry fits 64 bits, for an aligned address of 56 bits and flags of ten bits.
pub make_pte_decode :
    (pa flags : ℕ)
    → is_page_aligned pa ≡ true
    → pa < 2 ^ 56
    → flags < 1024
    → (pte_to_pa (make_pte pa flags) ≡ pa)
      × (make_pte pa flags < 2 ^ 64)
      × (pte_valid (make_pte pa flags) ≡ pte_valid flags)
      × (pte_leaf (make_pte pa flags) ≡ pte_leaf flags)
unfolding pte_to_pa
make_pte_decode pa flags aligned fits small =
    let off : pa % 4096 ≡ 0 = ground (arith, is_page_aligned_lem pa) in
    let entry : ℕ = pa / 4096 * 1024 + flags in
    let valid : (entry % 2 == 1) ≡ (flags % 2 == 1) =
      let e : entry % 2 ≡ flags % 2 = omega arith in rw e in
    let leaf : not (entry / 2 % 8 == 0) ≡ not (flags / 2 % 8 == 0) =
      let e : entry / 2 % 8 ≡ flags / 2 % 8 = omega arith in rw e in
    rw (make_pte_lem pa flags (omega arith) small) (
      omega arith,
      omega arith,
      pte_valid_lem entry ∙ valid ∙ sym (pte_valid_lem flags),
      pte_leaf_lem entry ∙ leaf ∙ sym (pte_leaf_lem flags),
    )

-- The flag `PteV` does not change the kind of an entry.
pub flags_with_valid :
    (flags : ℕ)
    → flags < 1024
    → (bit_or flags pte_v < 1024)
      × (pte_valid (bit_or flags pte_v) ≡ true)
      × (pte_leaf (bit_or flags pte_v) ≡ pte_leaf flags)
flags_with_valid flags small =
    let half : (1 + 2 * (flags / 2)) / 2 ≡ flags / 2 = omega arith in
    let odd : (1 + 2 * (flags / 2)) % 2 ≡ 1 = omega arith in
    rw (bit_or-one flags) (
      omega arith,
      pte_valid_lem (1 + 2 * (flags / 2)) ∙ ground arith,
      pte_leaf_lem (1 + 2 * (flags / 2)) ∙ rw half (sym (pte_leaf_lem flags)),
    )

-- The three indices and the offset in the page make up an address of 39 bits, and no index is
-- beyond a table.
pub vpn_index_split :
    (va : ℕ)
    → va < 2 ^ 39
    → (vpn_index va 2 * 2 ^ 30 + vpn_index va 1 * 2 ^ 21 + vpn_index va 0 * 2 ^ 12 + page_offset va
        ≡ va)
      × (vpn_index va 2 < 512)
      × (vpn_index va 1 < 512)
      × (vpn_index va 0 < 512)
vpn_index_split va fits =
    rw (vpn_index_lem va 2, vpn_index_lem va 1, vpn_index_lem va 0, page_offset_lem va)
      (omega arith)
