-- ===== src/Zip.antt =====
-- `is_zipped` of src/decompress.c.
pub mod Plain
mod Examples
use the_silver_searcher.Base.{ℕ, Bool, ◌&&◌, List, at, leb, ◌==◌, if◌then◌else◌}

-- `ag_compression_type` of src/decompress.h.
pub data Compression : Type 0 where
  no_compression gzip compress zip xz : Compression

abbrev pub is_xz : (buf : List ℕ) → (buf_len : ℕ) → Bool
is_xz buf buf_len =
    leb 6 buf_len
    && at buf 0 == 0xFD
    && at buf 1 == b'7'
    && at buf 2 == b'z'
    && at buf 3 == b'X'
    && at buf 4 == b'Z'
    && at buf 5 == 0

abbrev pub is_lzma : (buf : List ℕ) → (buf_len : ℕ) → Bool
is_lzma buf buf_len = leb 3 buf_len && at buf 0 == 0x5D && at buf 1 == 0 && at buf 2 == 0

-- The tests behind those for gzip and compress.
unfoldable pub zip_or_xz : (have_lzma : Bool) → (buf : List ℕ) → (buf_len : ℕ) → Compression
zip_or_xz have_lzma buf buf_len =
    if leb 4 buf_len && at buf 0 == 0x50 && at buf 1 == 0x4B && at buf 2 == 3 && at buf 3 == 4
    then zip
    else if have_lzma && is_xz buf buf_len
    then xz
    else if have_lzma && is_lzma buf buf_len
    then xz
    else no_compression

-- `have_zlib` and `have_lzma` say which libraries the program is built with.
unfoldable pub is_zipped :
    (have_zlib have_lzma : Bool) → (buf : List ℕ) → (buf_len : ℕ) → Compression
is_zipped have_zlib have_lzma buf buf_len =
    if buf_len == 0
    then no_compression
    else if leb 2 buf_len && at buf 0 == 0x1F && at buf 1 == 0x8B && have_zlib
    then gzip
    else if leb 2 buf_len && at buf 0 == 0x1F && at buf 1 == 0x9B
    then compress
    else zip_or_xz have_lzma buf buf_len
