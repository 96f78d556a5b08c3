-- ===== src/Ds/Bitmap.antt =====
-- kernel/lib/ds/bitmap.cpp: a bitmap over an array of 64-bit words that the caller owns.
-- A read or write beyond the array is undefined in the source, and `none` here.
pub mod View
pub mod Updates
pub mod Scan
pub mod Find
pub mod Clear
mod Tests
use qemu_risc_core.Prelude.{
  ℕ, zero, suc, ◌+◌, ◌-◌, ◌*◌, ◌/◌, ◌%◌, bit_and, bit_or, Bool, false, not, ◌&&◌, Option, some,
  List, ltb, leb, ◌==◌, if◌then◌else◌, get_elem?, set, u64, bit_not, ◌<<<◌, ℤ, pos, negsuc, ◌>>=◌,
}

abbrev pub bits_per_word : ℕ
bits_per_word = 64

pub word_count_for_bits : ℕ → ℕ
word_count_for_bits bit_count = u64 (bit_count + bits_per_word - 1) / bits_per_word

abbrev pub word_index_for_bit : ℕ → ℕ
word_index_for_bit bit = bit / bits_per_word

abbrev pub bit_offset_for_bit : ℕ → ℕ
bit_offset_for_bit bit = bit % bits_per_word

-- The loop at `bit`, with `rounds` left.
pub first_set_bit_from : ℕ → ℕ → ℕ → ℕ
first_set_bit_from word zero bit = bits_per_word
first_set_bit_from word (suc rounds) bit =
    let rest = first_set_bit_from word rounds (bit + 1) in
    if not (bit_and word (1 <<< bit) == 0) then bit else rest

pub first_set_bit_offset : ℕ → ℕ
unfolding first_set_bit_from
first_set_bit_offset word = first_set_bit_from word bits_per_word 0

pub record Bitmap : Type 0 where
  pub words : List ℕ
  pub bit_count : ℕ

abbrev pub bitmap : List ℕ → ℕ → Bitmap
bitmap words bit_count = record { words = words; bit_count = bit_count }

-- `m_words[i] = 0` for the rounds left from `i`.
pub clear_from : ℕ → ℕ → List ℕ → Option (List ℕ)
clear_from zero i words = some words
clear_from (suc rounds) i words = do
  _ ← get_elem? words i
  clear_from rounds (i + 1) (set words i 0)

pub clear_all : Bitmap → Option Bitmap
unfolding clear_from word_count_for_bits
clear_all b = do
  words ← clear_from (word_count_for_bits b.bit_count) 0 b.words
  some (record b { words = words })

pub set_bit : Bitmap → ℕ → Option Bitmap
set_bit b bit = if leb b.bit_count bit then some b else do
  let word_index = word_index_for_bit bit
  let mask = 1 <<< bit_offset_for_bit bit
  word ← get_elem? b.words word_index
  some (record b { words = set b.words word_index (bit_or word mask) })

pub clear_bit : Bitmap → ℕ → Option Bitmap
clear_bit b bit = if leb b.bit_count bit then some b else do
  let word_index = word_index_for_bit bit
  let mask = 1 <<< bit_offset_for_bit bit
  word ← get_elem? b.words word_index
  some (record b { words = set b.words word_index (bit_and word (bit_not mask)) })

pub test : Bitmap → ℕ → Option Bool
test b bit = if leb b.bit_count bit then some false else do
  let mask = 1 <<< bit_offset_for_bit bit
  word ← get_elem? b.words (word_index_for_bit bit)
  some (not (bit_and word mask == 0))

-- The last word counts with the digits beyond the bitmap set.
pub scanned_word : ℕ → ℕ → ℕ → ℕ → ℕ
scanned_word bit_count word_count index word =
    if (index == word_count - 1) && not (bit_count % bits_per_word == 0)
    then bit_or word (bit_not ((1 <<< (bit_count % bits_per_word)) - 1))
    else word

-- The loop of `find_first_zero` at `index`, with `rounds` left.
pub find_from : Bitmap → ℕ → ℕ → ℕ → Option ℤ
unfolding scanned_word first_set_bit_offset
find_from b word_count zero index = some (negsuc 0)
find_from b word_count (suc rounds) index =
    let rest = find_from b word_count rounds (index + 1) in
    do
      read ← get_elem? b.words index
      let word = scanned_word b.bit_count word_count index read
      let bit_offset = first_set_bit_offset (bit_not word)
      let global_bit = u64 (index * bits_per_word + bit_offset)
      if word == bit_not 0
          then rest
          else if bit_offset == bits_per_word
          then rest
          else if ltb global_bit b.bit_count
          then some (pos global_bit)
          else rest

pub find_first_zero : Bitmap → Option ℤ
unfolding find_from word_count_for_bits
find_first_zero b =
    let word_count = word_count_for_bits b.bit_count in find_from b word_count word_count 0
