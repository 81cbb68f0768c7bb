-- ===== src/Inflate/Examples.antt =====
-- A decompression, and its theorem at an input.
use mathlib.Core.Path.{subst, fun_ext}
use the_silver_searcher.Base.{
  ℕ, zero, suc, ◌≤◌, ◌<◌, ◌≡◌, ◌⊎◌, inl, inr, refl, sym, Bool, true, some, List, [], ◌∷◌, ◌++◌,
  length, done, arith,
}
use the_silver_searcher.Inflate.{
  z_ok, z_stream_end, Inflated, in_pages, after_call, zlib_loop, decompress_zlib,
}
use the_silver_searcher.Inflate.Whole.{Decodes}
use the_silver_searcher.Inflate.Lzma.{Coded, lzma_ok, lzma_stream_end, decompress}
use the_silver_searcher.Inflate.Lzma.Same.{as_inflate, unpacked, decompress-unpacked}
use the_silver_searcher.Zip.{xz}

-- A stream that gives a byte at a time.
abbrev one_byte : List ℕ → ℕ → Inflated (List ℕ)
one_byte [] n = record { stream = []; ret = z_stream_end; bytes = [] }
one_byte (c ∷ s) zero = record { stream = c ∷ s; ret = z_ok; bytes = [] }
one_byte (c ∷ s) (suc n) = record { stream = s; ret = z_ok; bytes = c ∷ [] }

abbrev itself : List ℕ → List ℕ
itself z = z

one_byte-Decodes : Decodes one_byte itself
one_byte-Decodes = record { splits = splits; fits = fits; runs = runs }
  where
    splits : (z : List ℕ) (n : ℕ) → (one_byte z n).bytes ++ (one_byte z n).stream ≡ z
    splits [] n = refl
    splits (c ∷ s) zero = refl
    splits (c ∷ s) (suc n) = refl

    fits : (z : List ℕ) (n : ℕ) → length (one_byte z n).bytes ≤ n
    fits [] n = omega arith
    fits (c ∷ s) zero = omega arith
    fits (c ∷ s) (suc n) = omega arith

    runs :
        (z : List ℕ) (n : ℕ)
        → 0 < n
        → (((one_byte z n).ret ≡ z_ok) × (0 < length (one_byte z n).bytes))
          ⊎ (((one_byte z n).ret ≡ z_stream_end) × ((one_byte z n).stream ≡ []))
    runs [] n pos = inr (refl, refl)
    runs (c ∷ s) zero pos = absurd (omega (arith, pos))
    runs (c ∷ s) (suc n) pos = inl (refl, omega arith)

abbrev hi : List ℕ
hi = b'h' ∷ b'i' ∷ []

abbrev always : ℕ → Bool
always size = true

inflate_hi : decompress_zlib one_byte always 3 (some hi) 5 4 ≡ done (some hi)
unfolding decompress_zlib zlib_loop after_call in_pages
inflate_hi = refl

-- The same stream from lzma.
abbrev one_byte_lzma : List ℕ → ℕ → Coded (List ℕ)
one_byte_lzma [] n = record { stream = []; ret = lzma_stream_end; bytes = [] }
one_byte_lzma (c ∷ s) zero = record { stream = c ∷ s; ret = lzma_ok; bytes = [] }
one_byte_lzma (c ∷ s) (suc n) = record { stream = s; ret = lzma_ok; bytes = c ∷ [] }

same_call : (z : List ℕ) (n : ℕ) → as_inflate one_byte_lzma z n ≡ one_byte z n
same_call [] n = refl
same_call (c ∷ s) zero = refl
same_call (c ∷ s) (suc n) = refl

same_calls : as_inflate one_byte_lzma ≡ one_byte
same_calls = fun_ext (λ z. fun_ext (λ n. same_call z n))

one_byte_lzma-Decodes : Decodes (as_inflate one_byte_lzma) itself
one_byte_lzma-Decodes = subst (λ f. Decodes f itself) (sym same_calls) one_byte-Decodes

decompress-unpacked_example :
    decompress one_byte one_byte_lzma always true true 3 (some hi) (some hi) 5 4 xz
    ≡ done (unpacked true true hi hi xz)
decompress-unpacked_example =
    decompress-unpacked one_byte one_byte_lzma always itself itself true true 3 hi hi 5 4 xz
      one_byte-Decodes one_byte_lzma-Decodes (λ size. refl) (omega arith) (omega arith)
      (omega arith) (omega arith)
