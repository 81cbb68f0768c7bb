-- ===== src/Zip/Examples.antt =====
-- Runs of the test for compressed files.
use the_silver_searcher.Base.{◌≡◌, refl, true, [], ◌∷◌}
use the_silver_searcher.Zip.{no_compression, gzip, is_zipped, zip_or_xz}

gzip_runs : is_zipped true true (0x1F ∷ 0x8B ∷ 8 ∷ []) 3 ≡ gzip
unfolding is_zipped
gzip_runs = refl

zip_archive : is_zipped true true (b'P' ∷ b'K' ∷ []) 2 ≡ no_compression
unfolding is_zipped zip_or_xz
zip_archive = refl
