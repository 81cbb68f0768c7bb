-- ===== src/Inflate.antt =====
-- `decompress_zlib` of src/decompress.c: the memory for the result is doubled until zlib has written all of it.
pub mod Whole
pub mod Lzma
mod Examples
use the_silver_searcher.Base.{
  ℕ, zero, suc, ◌+◌, ◌-◌, ◌*◌, ◌/◌, Bool, true, false, not, ◌||◌, Option, none, some, List, [],
  ◌++◌, length, ◌==◌, if◌then◌else◌, Run, done, out_of_fuel,
}

-- What `inflate` returns: Z_OK, Z_STREAM_END, one of the errors that the code names, or another.
pub data Ret : Type 0 where
  z_ok z_stream_end z_error z_other : Ret

-- A call of `inflate`: the state behind it, what it returns, and the bytes that it has written.
pub record Inflated (Z : Type 0) : Type 0 where
  pub stream : Z
  pub ret : Ret
  pub bytes : List ℕ

-- The size of the input in whole pages; `pagesize` is a power of two.
unfoldable pub in_pages : (buf_len pagesize : ℕ) → ℕ
in_pages buf_len pagesize = (buf_len + pagesize - 1) / pagesize * pagesize

-- Behind a call: `again` is the next one, `left` the space that is left over.
unfoldable pub after_call :
    (again : Run (Option (List ℕ))) (out : List ℕ) (left : ℕ) → Ret → Run (Option (List ℕ))
after_call again out left z_error = done none
after_call again out left z_ok = again
after_call again out left z_stream_end = if left == 0 then again else done (some out)
after_call again out left z_other = if left == 0 then again else done none

-- `Z` is the state of zlib, and `inflate` its function, by the space that it may write to.
module _ {Z : Type 0} (inflate : Z → (avail_out : ℕ) → Inflated Z) (grants : ℕ → Bool) where
  -- Both loops: the memory is doubled, and the half of it is what `inflate` may write to.
  unfoldable pub zlib_loop :
      (fuel : ℕ) → Z → (out : List ℕ) (result_size : ℕ) → Run (Option (List ℕ))
  zlib_loop zero z out result_size = out_of_fuel
  zlib_loop (suc fuel) z out result_size =
      let size = result_size * 2 in
      let call = inflate z (size / 2) in
      let again = zlib_loop fuel call.stream (out ++ call.bytes) size in
      if grants size
      then after_call again (out ++ call.bytes) (size / 2 - length call.bytes) call.ret
      else done none

  -- `init` is the state that `inflateInit2` makes; NULL is `none`.
  unfoldable pub decompress_zlib :
      (fuel : ℕ) (init : Option Z) (buf_len pagesize : ℕ) → Run (Option (List ℕ))
  decompress_zlib fuel none buf_len pagesize = done none
  decompress_zlib fuel (some z) buf_len pagesize = zlib_loop fuel z [] (in_pages buf_len pagesize)
