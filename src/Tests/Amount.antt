-- ===== src/Tests/Amount.antt =====
-- `demToOs` and `osToDem` at concrete amounts.
use pathos_dacs_ref.Prelude.{codes, ok, throw, ◌≡◌, refl, arith}
use pathos_dacs_ref.Payment.Amount.RoundTrip.{dem_to_os-os_to_dem}
use pathos_dacs_ref.Payment.Amount.{dem_to_os, os_to_dem, invalid_amount}

converted : dem_to_os (codes "12.05") ≡ ok 12050000000
unfolding dem_to_os
converted = refl

printed : os_to_dem 12050000000 ≡ codes "12.05"
unfolding os_to_dem
printed = refl

leading_zero : dem_to_os (codes "012.05") ≡ throw invalid_amount
unfolding dem_to_os
leading_zero = refl

dem_to_os-os_to_dem_example : dem_to_os (os_to_dem 1000000001) ≡ ok 1000000001
dem_to_os-os_to_dem_example = dem_to_os-os_to_dem 1000000001 (ground arith)
