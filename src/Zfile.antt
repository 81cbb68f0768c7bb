-- ===== src/Zfile.antt =====
-- src/zfile.c: a compressed file that is read as a stream of the bytes it holds.
pub mod View
pub mod Round
pub mod Call
pub mod Next
pub mod Truncated
pub mod Seek
mod Examples
use the_silver_searcher.Base.{
  ℕ, zero, suc, ◌+◌, ◌-◌, ◌*◌, Bool, true, false, not, ◌&&◌, Option, none, some, List, [], ◌∷◌,
  ◌++◌, length, take, drop, ltb, leb, ◌==◌, if◌then◌else◌, Run, done, out_of_fuel,
}

-- What a call of zlib or lzma returns: it goes on, its stream has ended, or there is an error.
pub data Step : Type 0 where
  goes_on at_end broken : Step

abbrev pub is_end : Step → Bool
is_end at_end = true
is_end _ = false

-- A call: the state behind it, the input that it leaves, the bytes that it writes from the start of `outbuf`.
pub record Decoded (Z : Type 0) : Type 0 where
  pub coder : Z
  pub left : List ℕ
  pub step : Step
  pub bytes : List ℕ

-- `struct zfile`: `unread` is what `in` still has, `avail` the input that zlib or lzma has not read, and `outbuf` the
-- bytes up to `next_out`.
pub record Cookie (Z : Type 0) : Type 0 where
  pub unread : List ℕ
  pub avail : List ℕ
  pub logic_offset : ℕ
  pub decode_offset : ℕ
  pub actual_len : ℕ
  pub outbuf : List ℕ
  pub outbuf_start : ℕ
  pub coder : Z
  pub eof : Bool

-- The size of `inbuf`, and of the pieces that `zfile_seek` skips.
abbrev pub in_size : ℕ
in_size = 32 * 1024

-- The bytes that are read, -1, or the end of the program, by `exit` or `assert`.
pub data ReadEnd : Type 0 where
  read : List ℕ → ReadEnd
  failed exits : ReadEnd

module _ {Z : Type 0} where
  abbrev pub pending : Cookie Z → List ℕ
  pending c = drop c.outbuf_start c.outbuf

  -- Of the output that is there as much as is asked for; `ignorebytes` is 0, by the assertion before the loop.
  unfoldable pub drain : (size : ℕ) → Cookie Z → List ℕ × Cookie Z
  drain size c =
      let bytes = take size (pending c) in
      (
        bytes,
        record c {
          outbuf_start = c.outbuf_start + length bytes;
          decode_offset = c.decode_offset + length bytes;
          logic_offset = c.logic_offset + length bytes;
        },
      )

  -- More input, if there is none; `none` is the end of the program, since the file is at its end.
  unfoldable pub fill_input : Cookie Z → Option (Cookie Z)
  fill_input c =
      if length c.avail == 0
      then if length c.unread == 0
        then none
        else some (record c { avail = take in_size c.unread; unread = drop in_size c.unread })
      else some c

  -- `init` is the state that a new decoder has, or an error; `decode` is `inflate` or `lzma_code`.
  module _ (init : Option Z) (decode : Z → (input : List ℕ) → Decoded Z) where
    -- `zfile_cookie_init`, and whether it succeeds.
    unfoldable pub zfile_cookie_init : Cookie Z → Bool × Cookie Z
    zfile_cookie_init c = elim init [
      | none ↦ (false, record c { actual_len = 0 })
      | some z ↦ (
        true,
        record c {
          actual_len = 0;
          coder = z;
          avail = [];
          outbuf = [];
          outbuf_start = 0;
          eof = false;
        },
      )
    ]

    -- `decompress_open` of a file with the given bytes; `blank` is the memory for the cookie.
    unfoldable pub decompress_open : (blank : Cookie Z) (contents : List ℕ) → Option (Cookie Z)
    decompress_open blank contents =
        let (made, c) =
          zfile_cookie_init
            (record blank { unread = contents; logic_offset = 0; decode_offset = 0 }) in
        if made then some c else none

    -- The output starts anew; its length is counted unless there is an error.
    unfoldable pub decode_more : Cookie Z → Step × Cookie Z
    decode_more c =
        let d = decode c.coder c.avail in
        let c' = record c { coder = d.coder; avail = d.left; outbuf = d.bytes; outbuf_start = 0 } in
        (
          d.step,
          elim d.step [
            | broken ↦ c'
            | _ ↦ record c' { actual_len = c.actual_len + length d.bytes }
          ],
        )

    -- Behind a call: `again` is the next round.
    unfoldable pub after_decode :
        (again : Step → Cookie Z → Run (ReadEnd × Cookie Z))
        → Step × Cookie Z
        → Run (ReadEnd × Cookie Z)
    after_decode again (goes_on, c) = again goes_on c
    after_decode again (at_end, c) = again at_end c
    after_decode again (broken, c) = done (failed, c)

    -- The rest of a round, where more is to be read.
    unfoldable pub more_input :
        (again : Step → Cookie Z → Run (ReadEnd × Cookie Z))
        → Cookie Z
        → Option (Cookie Z)
        → Run (ReadEnd × Cookie Z)
    more_input again c none = done (exits, c)
    more_input again c (some c') = after_decode again (decode_more c')

    -- A round; `step` is what the last call in this read has returned.
    unfoldable pub read_rounds :
        (fuel : ℕ) (total : List ℕ) (size : ℕ) → Step → Cookie Z → Run (ReadEnd × Cookie Z)
    read_rounds zero total size step c = out_of_fuel
    read_rounds (suc fuel) total size step c =
        let (bytes, c') = drain size c in
        let again = read_rounds fuel (total ++ bytes) (size - length bytes) in
        let next = more_input again c' (fill_input c') in
        if size - length bytes == 0
        then done (read (total ++ bytes), c')
        else if is_end step
        then done (read (total ++ bytes), record c' { eof = true })
        else next

    unfoldable pub zfile_read : (fuel size : ℕ) → Cookie Z → Run (ReadEnd × Cookie Z)
    zfile_read fuel size c =
        let rounds = read_rounds fuel [] size goes_on c in
        if size == 0
        then done (read [], c)
        else if c.eof
        then done (read [], c)
        else if c.logic_offset == c.decode_offset
        then rounds
        else done (exits, c)
