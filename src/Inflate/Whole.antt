-- ===== src/Inflate/Whole.antt =====
-- All that zlib writes is in the result.
use native.Mathlib.Nat.{mul-div_cancel, lt-div-mul-add}
use mathlib.Core.List.{append-nil, append_assoc}
use the_silver_searcher.Base.{
  ℕ, zero, suc, ◌+◌, ◌-◌, ◌*◌, ◌/◌, ◌≤◌, ◌<◌, ◌≡◌, ◌⊎◌, sym, ap, ◌∙◌, Bool, true, some, List, [],
  ◌++◌, length, length-append, ◌==◌, done, arith, inl, inr, Bool-cases,
}
use the_silver_searcher.Inflate.{
  z_ok, z_stream_end, Inflated, in_pages, after_call, zlib_loop, decompress_zlib,
}

module _ {Z : Type 0} (inflate : Z → (avail_out : ℕ) → Inflated Z) where
  -- What zlib documents of a stream that is whole: `rest` is what is still to be written in a state. A call
  -- with some space writes the next bytes of it, not more than there is space for; it returns Z_OK and has
  -- written something, or Z_STREAM_END and nothing is left.
  pub record Decodes (rest : Z → List ℕ) : Type 0 where
    pub splits : (z : Z) (n : ℕ) → (inflate z n).bytes ++ rest (inflate z n).stream ≡ rest z
    pub fits : (z : Z) (n : ℕ) → length (inflate z n).bytes ≤ n
    pub runs :
        (z : Z) (n : ℕ)
        → 0 < n
        → (((inflate z n).ret ≡ z_ok) × (0 < length (inflate z n).bytes))
          ⊎ (((inflate z n).ret ≡ z_stream_end) × (rest (inflate z n).stream ≡ []))

  module _ (grants : ℕ → Bool) (rest : Z → List ℕ) (v : Decodes rest)
      (all : (k : ℕ) → grants k ≡ true) where
    zlib_loop-rest :
        (fuel : ℕ) (z : Z) (out : List ℕ) (size : ℕ)
        → length (rest z) < fuel
        → 0 < size
        → zlib_loop inflate grants fuel z out size ≡ done (some (out ++ rest z))
    unfolding zlib_loop after_call
    zlib_loop-rest zero z out size lt pos = absurd (omega (arith, lt))
    zlib_loop-rest (suc fuel) z out size lt pos =
        let n = size * 2 / 2 in
        let call = inflate z n in
        let half : n ≡ size = mul-div_cancel size (omega arith) in
        let same = v.splits z n in
        let len : length call.bytes + length (rest call.stream) ≡ length (rest z) =
          sym (length-append call.bytes (rest call.stream)) ∙ ap length same in
        let whole : (out ++ call.bytes) ++ rest call.stream ≡ out ++ rest z =
          append_assoc out call.bytes (rest call.stream) ∙ ap (λ l. out ++ l) same in
        let again = λ (shorter : length (rest call.stream) < fuel).
          zlib_loop-rest fuel call.stream (out ++ call.bytes) (size * 2) shorter
            (omega (arith, pos))
          ∙ ap (λ l. done (some l)) whole in
        elim (v.runs z n (omega (arith, half, pos))) [
          | inl (ret, written) ↦ rw (all (size * 2), ret) (again (omega (arith, len, lt, written)))
          | inr (ret, end) ↦ elim (Bool-cases (n - length call.bytes == 0)) [
            | inl full ↦
                let nothing : length (rest call.stream) ≡ 0 = ap length end in
                rw (all (size * 2), ret, full)
                  (again (ground (arith, len, lt, nothing, full, half, pos)))
            | inr room ↦
                rw (all (size * 2), ret, room)
                  (ap (λ l. done (some l))
                    (sym (append-nil (out ++ call.bytes))
                      ∙ ap (λ l. (out ++ call.bytes) ++ l) (sym end)
                      ∙ whole))
          ]
        ]

    in_pages-pos :
        (buf_len pagesize : ℕ) → 0 < buf_len → 0 < pagesize → 0 < in_pages buf_len pagesize
    unfolding in_pages
    in_pages-pos buf_len pagesize pos page =
        let above : buf_len + pagesize - 1 < in_pages buf_len pagesize + pagesize =
          lt-div-mul-add page in
        omega (arith, pos, page, above)

    -- If zlib works on a whole stream as it documents, and memory never runs out, decompression returns within
    -- one round more than there are bytes to write, and the result is all of them in order.
    pub decompress_zlib-rest :
        (fuel : ℕ) (z : Z) (buf_len pagesize : ℕ)
        → 0 < buf_len
        → 0 < pagesize
        → length (rest z) < fuel
        → decompress_zlib inflate grants fuel (some z) buf_len pagesize ≡ done (some (rest z))
    unfolding decompress_zlib
    decompress_zlib-rest fuel z buf_len pagesize pos page lt =
        zlib_loop-rest fuel z [] (in_pages buf_len pagesize) lt
          (in_pages-pos buf_len pagesize pos page)
