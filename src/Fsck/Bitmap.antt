-- ===== src/Fsck/Bitmap.antt =====
-- Which bit of the bitmap the test of an address looks at.
use computer_organization_an.Common.{ℕ, ◌/◌, ◌%◌, ◌≡◌, refl, arith}
use computer_organization_an.Fsck.Image.{Image, block_size, word_bits, bitmap_bit, this_bit}

-- The test of an address looks at the bit of the address modulo 512: it is the address's own bit
-- exactly below 512.
pub this_bit-bitmap_bit : (img : Image) (b : ℕ) → this_bit img b ≡ bitmap_bit img (b % 512)
unfolding this_bit bitmap_bit
this_bit-bitmap_bit img b =
    let in_word : b % word_bits ≡ b % 512 % word_bits = omega arith in
    let of_word : b / word_bits % (block_size / word_bits) ≡ b % 512 / word_bits = omega arith in
    rw (in_word, of_word) refl
