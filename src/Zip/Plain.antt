-- ===== src/Zip/Plain.antt =====
-- Plain text is not taken for a compressed file.
use the_silver_searcher.Base.{ℕ, ◌<◌, ◌≡◌, Bool, List, at, arith}
use the_silver_searcher.Binary.Text.{IsPlain}
use the_silver_searcher.Zip.{no_compression, zip_or_xz, is_zipped}

zip_or_xz-plain :
    (have_lzma : Bool) (buf : List ℕ) (buf_len : ℕ)
    → ((j : ℕ) → j < buf_len → IsPlain (at buf j))
    → zip_or_xz have_lzma buf buf_len ≡ no_compression
unfolding zip_or_xz
zip_or_xz-plain have_lzma buf buf_len plain = ground (arith, plain 0, plain 1, plain 2)

-- A buffer of plain bytes is not taken for a compressed file, whatever the program is built with.
is_zipped-plain :
    (have_zlib have_lzma : Bool) (buf : List ℕ) (buf_len : ℕ)
    → ((j : ℕ) → j < buf_len → IsPlain (at buf j))
    → is_zipped have_zlib have_lzma buf buf_len ≡ no_compression
unfolding is_zipped
is_zipped-plain have_zlib have_lzma buf buf_len plain =
    ground (arith, plain 0, zip_or_xz-plain have_lzma buf buf_len plain)
