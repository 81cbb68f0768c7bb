-- ===== src/Inflate/Lzma.antt =====
-- `decompress_lzma` and `decompress` of src/decompress.c.
pub mod Same
use the_silver_searcher.Base.{
  ℕ, zero, suc, ◌+◌, ◌-◌, ◌*◌, ◌/◌, Bool, true, false, Option, none, some, List, [], ◌++◌, length,
  ◌==◌, if◌then◌else◌, Run, done, out_of_fuel,
}
use the_silver_searcher.Zip.{Compression, no_compression, gzip, compress, zip, xz}
use the_silver_searcher.Inflate.{Inflated, in_pages, decompress_zlib}

-- What `lzma_code` returns: LZMA_OK, LZMA_STREAM_END, or another.
pub data LzmaRet : Type 0 where
  lzma_ok lzma_stream_end lzma_other : LzmaRet

-- A call of `lzma_code`: the stream behind it, what it returns, and the bytes that it has written.
pub record Coded (L : Type 0) : Type 0 where
  pub stream : L
  pub ret : LzmaRet
  pub bytes : List ℕ

-- Behind a call: `again` is the next one, `left` the space that is left over.
unfoldable pub after_code :
    (again : Run (Option (List ℕ))) (out : List ℕ) (left : ℕ) → LzmaRet → Run (Option (List ℕ))
after_code again out left lzma_ok = again
after_code again out left lzma_stream_end = if left == 0 then again else done (some out)
after_code again out left lzma_other = done none

-- `L` is the state of lzma, and `lzma_code` its function, by the space that it may write to.
module _ {L : Type 0} (lzma_code : L → (avail_out : ℕ) → Coded L) (grants : ℕ → Bool) where
  -- Both loops, as for zlib.
  unfoldable pub lzma_loop :
      (fuel : ℕ) → L → (out : List ℕ) (result_size : ℕ) → Run (Option (List ℕ))
  lzma_loop zero l out result_size = out_of_fuel
  lzma_loop (suc fuel) l out result_size =
      let size = result_size * 2 in
      let call = lzma_code l (size / 2) in
      let again = lzma_loop fuel call.stream (out ++ call.bytes) size in
      if grants size
      then after_code again (out ++ call.bytes) (size / 2 - length call.bytes) call.ret
      else done none

  -- `init` is the state that `lzma_auto_decoder` makes; NULL is `none`.
  unfoldable pub decompress_lzma :
      (fuel : ℕ) (init : Option L) (buf_len pagesize : ℕ) → Run (Option (List ℕ))
  decompress_lzma fuel none buf_len pagesize = done none
  decompress_lzma fuel (some l) buf_len pagesize = lzma_loop fuel l [] (in_pages buf_len pagesize)

-- The choice of the library, by those that the program is built with. The other kinds are not supported.
module _ {Z L : Type 0} (inflate : Z → (avail_out : ℕ) → Inflated Z)
    (lzma_code : L → (avail_out : ℕ) → Coded L) (grants : ℕ → Bool)
    (have_zlib have_lzma : Bool) where
  unfoldable pub decompress :
      (fuel : ℕ) (init_z : Option Z) (init_l : Option L) (buf_len pagesize : ℕ)
      → Compression
      → Run (Option (List ℕ))
  decompress fuel init_z init_l buf_len pagesize gzip =
      if have_zlib then decompress_zlib inflate grants fuel init_z buf_len pagesize else done none
  decompress fuel init_z init_l buf_len pagesize xz =
      if have_lzma then decompress_lzma lzma_code grants fuel init_l buf_len pagesize else done none
  decompress fuel init_z init_l buf_len pagesize compress = done none
  decompress fuel init_z init_l buf_len pagesize zip = done none
  decompress fuel init_z init_l buf_len pagesize no_compression = done none
