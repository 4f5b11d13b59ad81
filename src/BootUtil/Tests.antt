-- ===== src/BootUtil/Tests.antt =====
-- Tests of the small routines of stage 2.
use alma_os.Base.{◌≡◌, refl}
use alma_os.BootUtil.{min_int, align}

min_int-small : min_int 700 512 ≡ 512
unfolding min_int alma_os.BootUtil.widened alma_os.BootUtil.int_less
min_int-small = refl

align-up : align 700 512 ≡ 1024
unfolding align
align-up = refl
