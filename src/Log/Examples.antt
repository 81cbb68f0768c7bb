-- ===== src/Log/Examples.antt =====
-- A message at the threshold that `main` sets.
use the_silver_searcher.Base.{◌≡◌, refl, [], ◌∷◌}
use the_silver_searcher.Log.{debug, err, Streams, write, vplog}

abbrev nothing_written : Streams
nothing_written = record { out = []; errors = [] }

error_shown :
    vplog 30 err (b'x' ∷ []) nothing_written
    ≡ record { out = []; errors = b'E' ∷ b'R' ∷ b'R' ∷ b':' ∷ b' ' ∷ b'x' ∷ b'\n' ∷ [] }
unfolding vplog write
error_shown = refl

debug_kept_back : vplog 30 debug (b'x' ∷ []) nothing_written ≡ nothing_written
unfolding vplog
debug_kept_back = refl
