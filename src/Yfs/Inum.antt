-- ===== src/Yfs/Inum.antt =====
-- Inode numbers: the bit that tells files from directories.
use ds14_project.Base.{ℕ, ◌+◌, ◌*◌, ◌%◌, ◌^◌, ◌<◌, ◌≡◌, ◌≢◌, ap, true, arith}
use ds14_project.Base.Bits.{bit_or_disjoint_low}
use ds14_project.Yfs.{isfile, isdir, new_inum}

new_file : (rand : ℕ) → new_inum rand 1 ≡ 1 * 2 ^ 31 + rand % 0x7fff_ffff
unfolding new_inum
new_file rand = bit_or_disjoint_low 31 1 (rand % 0x7fff_ffff) (omega arith)

new_dir : (rand : ℕ) → new_inum rand 0 ≡ 0 * 2 ^ 31 + rand % 0x7fff_ffff
unfolding new_inum
new_dir rand = bit_or_disjoint_low 31 0 (rand % 0x7fff_ffff) (omega arith)

-- Whatever `rand` gives, a new number is a file's or a directory's as was asked, the first below
-- 2^32 and the second below 2^31.
pub new_inum_kinds :
    (rand : ℕ)
    → (isfile (new_inum rand 1) ≡ true)
      × (isdir (new_inum rand 0) ≡ true)
      × (new_inum rand 1 < 2 ^ 32)
      × (new_inum rand 0 < 2 ^ 31)
unfolding isfile isdir
new_inum_kinds rand = (
  ground (arith, new_file rand),
  ground (arith, new_dir rand),
  omega (arith, new_file rand),
  omega (arith, new_dir rand),
)

pub dir-ne-new : (p rand : ℕ) → isdir p ≡ true → p ≢ new_inum rand 1
unfolding isdir
dir-ne-new p rand h e = ground (arith, (new_inum_kinds rand).0, ap isfile e)
