-- ===== src/Inflate/Lzma/Same.antt =====
-- The loop around lzma does what the loop around zlib does, and all that either writes is in the result.
use the_silver_searcher.Base.{
  ℕ, zero, suc, ◌-◌, ◌*◌, ◌/◌, ◌<◌, ◌≡◌, refl, ap, ◌∙◌, Bool, true, false, Option, none, some, List,
  [], ◌++◌, length, if◌then◌else◌, Run, done,
}
use the_silver_searcher.Zip.{Compression, no_compression, gzip, compress, zip, xz}
use the_silver_searcher.Inflate.{
  Ret, z_ok, z_stream_end, z_error, Inflated, in_pages, after_call, zlib_loop, decompress_zlib,
}
use the_silver_searcher.Inflate.Whole.{Decodes, decompress_zlib-rest}
use the_silver_searcher.Inflate.Lzma.{
  LzmaRet, lzma_ok, lzma_stream_end, lzma_other, Coded, after_code, lzma_loop, decompress_lzma,
  decompress,
}

-- lzma as zlib would say it.
abbrev pub ret_of : LzmaRet → Ret
ret_of lzma_ok = z_ok
ret_of lzma_stream_end = z_stream_end
ret_of lzma_other = z_error

abbrev pub as_inflate : {L : Type 0} → (L → ℕ → Coded L) → L → ℕ → Inflated L
as_inflate lzma_code l n = record {
  stream = (lzma_code l n).stream;
  ret = ret_of (lzma_code l n).ret;
  bytes = (lzma_code l n).bytes;
}

after_code-after_call :
    (again : Run (Option (List ℕ))) (out : List ℕ) (left : ℕ) (r : LzmaRet)
    → after_code again out left r ≡ after_call again out left (ret_of r)
unfolding after_code after_call
after_code-after_call again out left lzma_ok = refl
after_code-after_call again out left lzma_stream_end = refl
after_code-after_call again out left lzma_other = refl

module _ {L : Type 0} (lzma_code : L → (avail_out : ℕ) → Coded L) (grants : ℕ → Bool) where
  lzma_loop-zlib_loop :
      (fuel : ℕ) (l : L) (out : List ℕ) (size : ℕ)
      → lzma_loop lzma_code grants fuel l out size
        ≡ zlib_loop (as_inflate lzma_code) grants fuel l out size
  unfolding lzma_loop zlib_loop
  lzma_loop-zlib_loop zero l out size = refl
  lzma_loop-zlib_loop (suc fuel) l out size =
      let n = size * 2 / 2 in
      let call = lzma_code l n in
      let again = lzma_loop-zlib_loop fuel call.stream (out ++ call.bytes) (size * 2) in
      ap
        (λ r.
          if grants (size * 2)
          then after_code r (out ++ call.bytes) (n - length call.bytes) call.ret
          else done none)
        again
      ∙ ap (λ r. if grants (size * 2) then r else done none)
          (after_code-after_call _ (out ++ call.bytes) (n - length call.bytes) call.ret)

  decompress_lzma-decompress_zlib :
      (fuel : ℕ) (init : Option L) (buf_len pagesize : ℕ)
      → decompress_lzma lzma_code grants fuel init buf_len pagesize
        ≡ decompress_zlib (as_inflate lzma_code) grants fuel init buf_len pagesize
  unfolding decompress_lzma decompress_zlib
  decompress_lzma-decompress_zlib fuel none buf_len pagesize = refl
  decompress_lzma-decompress_zlib fuel (some l) buf_len pagesize =
      lzma_loop-zlib_loop fuel l [] (in_pages buf_len pagesize)

-- What a file of a kind unpacked, `zs` being what zlib makes of it and `ls` what lzma does.
abbrev pub unpacked : (have_zlib have_lzma : Bool) (zs ls : List ℕ) → Compression → Option (List ℕ)
unpacked have_zlib have_lzma zs ls gzip = if have_zlib then some zs else none
unpacked have_zlib have_lzma zs ls xz = if have_lzma then some ls else none
unpacked have_zlib have_lzma zs ls _ = none

-- If zlib and lzma work on a whole stream as they document, and memory never runs out, decompression returns within
-- one round more than there are bytes to write: all bytes in order of a file that is packed by a library that the
-- program is built with, and NULL for every other file.
pub decompress-unpacked :
    {Z L : Type 0} (inflate : Z → (avail_out : ℕ) → Inflated Z)
    (lzma_code : L → (avail_out : ℕ) → Coded L) (grants : ℕ → Bool) (rest_z : Z → List ℕ)
    (rest_l : L → List ℕ) (have_zlib have_lzma : Bool) (fuel : ℕ) (z : Z) (l : L)
    (buf_len pagesize : ℕ) (t : Compression)
    → Decodes inflate rest_z
    → Decodes (as_inflate lzma_code) rest_l
    → ((k : ℕ) → grants k ≡ true)
    → 0 < buf_len
    → 0 < pagesize
    → length (rest_z z) < fuel
    → length (rest_l l) < fuel
    → decompress inflate lzma_code grants have_zlib have_lzma fuel
        (some z)
        (some l)
        buf_len
        pagesize
        t
      ≡ done (unpacked have_zlib have_lzma (rest_z z) (rest_l l) t)
unfolding decompress
decompress-unpacked inflate lzma_code grants rest_z rest_l true have_lzma fuel z l buf_len pagesize
      gzip vz vl all pos page lz ll =
    decompress_zlib-rest inflate grants rest_z vz all fuel z buf_len pagesize pos page lz
decompress-unpacked inflate lzma_code grants rest_z rest_l false have_lzma fuel z l buf_len pagesize
      gzip vz vl all pos page lz ll =
    refl
decompress-unpacked inflate lzma_code grants rest_z rest_l have_zlib true fuel z l buf_len pagesize
      xz vz vl all pos page lz ll =
    decompress_lzma-decompress_zlib lzma_code grants fuel (some l) buf_len pagesize
    ∙ decompress_zlib-rest (as_inflate lzma_code) grants rest_l vl all fuel l buf_len pagesize pos
        page ll
decompress-unpacked inflate lzma_code grants rest_z rest_l have_zlib false fuel z l buf_len pagesize
      xz vz vl all pos page lz ll =
    refl
decompress-unpacked inflate lzma_code grants rest_z rest_l have_zlib have_lzma fuel z l buf_len
      pagesize compress vz vl all pos page lz ll =
    refl
decompress-unpacked inflate lzma_code grants rest_z rest_l have_zlib have_lzma fuel z l buf_len
      pagesize zip vz vl all pos page lz ll =
    refl
decompress-unpacked inflate lzma_code grants rest_z rest_l have_zlib have_lzma fuel z l buf_len
      pagesize no_compression vz vl all pos page lz ll =
    refl
