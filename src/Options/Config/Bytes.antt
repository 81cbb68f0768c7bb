-- ===== src/Options/Config/Bytes.antt =====
-- All that git prints is read, and there is room for it.
use mathlib.Core.List.{append-nil, append_assoc}
use the_silver_searcher.Base.{
  ℕ, zero, suc, ◌+◌, ◌%◌, ◌≤◌, ◌<◌, ◌≡◌, refl, sym, ap, ◌∙◌, true, false, List, [], ◌++◌, length,
  take, drop, length-append, length-take, length-drop, take-drop, length-nil, ltb, ◌==◌, Returns,
  arith, dec_lt,
}
use the_silver_searcher.Options.Config.{Res, read_res}

-- The bytes are all that is printed, and with a NUL they have room.
pub record IsRead (printed : List ℕ) (r : Res) : Type 0 where
  pub all : r.bytes ≡ printed
  pub fits : length r.bytes + 1 ≤ r.room

read_res-from :
    (fuel : ℕ) (unread buf : List ℕ)
    → length unread < fuel
    → length buf % 64 ≡ 0
    → Returns (read_res fuel unread buf) (IsRead (buf ++ unread))
unfolding read_res
read_res-from zero unread buf lt even = absurd (omega (arith, lt))
read_res-from (suc fuel) unread buf lt even =
    let piece = take 64 unread in
    let len = length-take 64 unread in
    let got_len = length-append buf piece in
    elim (dec_lt (length piece) 64) [
      | yes short ↦
          let e : ltb (length piece) 64 ≡ true = ground (arith, short) in
          let few : length (drop 64 unread) ≡ 0 =
            omega (arith, length-drop 64 unread, len, short) in
          let all : take 64 unread ≡ unread =
            sym (append-nil piece)
            ∙ ap (λ q. piece ++ q) (sym (length-nil (drop 64 unread) few))
            ∙ take-drop 64 unread in
          simp e (
            record { bytes = buf ++ piece; room = length buf + 65 },
            refl,
            record { all = ap (λ q. buf ++ q) all; fits = omega (arith, got_len, short) },
          )
      | no full ↦
          let e : ltb (length piece) 64 ≡ false = ground (arith, full) in
          let some_byte : ltb 0 (length (buf ++ piece)) ≡ true = ground (arith, got_len, full) in
          let even' : length (buf ++ piece) % 64 ≡ 0 = omega (arith, got_len, len, full, even) in
          let e' : (length (buf ++ piece) % 64 == 0) ≡ true = ground (arith, even') in
          let less : length (drop 64 unread) < fuel =
            omega (arith, length-drop 64 unread, len, full, lt) in
          let (r, done_r, read) = read_res-from fuel (drop 64 unread) (buf ++ piece) less even' in
          simp (e, some_byte, e')
            (
              r,
              done_r,
              record {
                all =
                    read.all
                    ∙ append_assoc buf piece (drop 64 unread)
                    ∙ ap (λ q. buf ++ q) (take-drop 64 unread);
                fits = read.fits;
              },
            )
    ]

-- Whatever git prints, all of it is read within one round more than it has bytes, and the memory has room for it and
-- a NUL.
pub read_res-all :
    (fuel : ℕ) (printed : List ℕ)
    → length printed < fuel
    → Returns (read_res fuel printed []) (IsRead printed)
read_res-all fuel printed lt = read_res-from fuel printed [] lt refl
