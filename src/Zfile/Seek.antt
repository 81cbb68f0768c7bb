-- ===== src/Zfile/Seek.antt =====
-- `zfile_seek` of src/zfile.c: backwards to the start, and forwards by reading.
pub mod Skip
pub mod Rewind
use the_silver_searcher.Base.{
  ℕ, zero, suc, ◌+◌, ◌-◌, Bool, true, false, Option, List, [], ◌∷◌, ltb, ◌==◌, if◌then◌else◌, Run,
  done, out_of_fuel, then_run,
}
use Prim.Native.Nat.{min}
use the_silver_searcher.Base.Signed.{ℤ, pos, negsuc}
use the_silver_searcher.Zfile.{
  Decoded, Cookie, ReadEnd, read, failed, exits, in_size, zfile_cookie_init, zfile_read,
}

pub data Whence : Type 0 where
  seek_set seek_cur seek_end : Whence

-- The new offset, -1, or the end of the program, by `exit` or `assert`.
pub data SeekEnd : Type 0 where
  moved : ℕ → SeekEnd
  refused quits : SeekEnd

infixl 60 ◌+ℤ◌
-- A natural number and an offset.
unfoldable pub ◌+ℤ◌ : ℕ → ℤ → ℤ
n +ℤ pos m = pos (n + m)
n +ℤ negsuc m = if ltb m n then pos (n - suc m) else negsuc (m - n)

-- Where the seek is to, counted from the start.
unfoldable pub new_offset : (logic_offset : ℕ) → Whence → ℤ → Option ℤ
new_offset logic_offset seek_set offset = Option.some offset
new_offset logic_offset seek_cur offset = Option.some (logic_offset +ℤ offset)
new_offset logic_offset seek_end offset = Option.none

module _ {Z : Type 0} (init : Option Z) (decode : Z → (input : List ℕ) → Decoded Z) where
  -- The assertion at the end.
  unfoldable pub arrive : (target : ℕ) → Cookie Z → SeekEnd × Cookie Z
  arrive target c = if c.logic_offset == target then (moved target, c) else (quits, c)

  -- Behind a read in the loop; `again` is its next round.
  unfoldable pub after_skip :
      (again : Cookie Z → Run (SeekEnd × Cookie Z)) → ReadEnd × Cookie Z → Run (SeekEnd × Cookie Z)
  after_skip again (failed, c) = done (refused, c)
  after_skip again (exits, c) = done (quits, c)
  after_skip again (read [], c) = if c.eof then done (moved c.logic_offset, c) else done (quits, c)
  after_skip again (read (b ∷ bytes), c) = again c

  -- The loop that reads up to the target; `fuel` is that of a read.
  unfoldable pub skip_rounds : (rounds fuel target : ℕ) → Cookie Z → Run (SeekEnd × Cookie Z)
  skip_rounds zero fuel target c = out_of_fuel
  skip_rounds (suc rounds) fuel target c =
      let again = skip_rounds rounds fuel target in
      if ltb c.logic_offset target
      then then_run (zfile_read init decode fuel (min in_size (target - c.logic_offset)) c)
          (after_skip again)
      else done (arrive target c)

  -- From the start anew; that the decoder could not be made is not looked at, nor is `in` rewound.
  unfoldable pub rewind : Cookie Z → SeekEnd × Cookie Z
  rewind c =
      let (made, c') =
        zfile_cookie_init init decode (record c { decode_offset = 0; logic_offset = 0 }) in
      arrive 0 c'

  unfoldable pub seek_to : (rounds fuel : ℕ) → Cookie Z → Option ℤ → Run (SeekEnd × Cookie Z)
  seek_to rounds fuel c Option.none = done (refused, c)
  seek_to rounds fuel c (Option.some (negsuc n)) = done (refused, c)
  seek_to rounds fuel c (Option.some (pos zero)) = done (rewind c)
  seek_to rounds fuel c (Option.some (pos (suc n))) =
      if ltb (suc n) c.logic_offset
      then done (refused, c)
      else if ltb c.logic_offset (suc n)
      then skip_rounds rounds fuel (suc n) c
      else done (arrive (suc n) c)

  unfoldable pub zfile_seek : (rounds fuel : ℕ) → Whence → ℤ → Cookie Z → Run (SeekEnd × Cookie Z)
  zfile_seek rounds fuel whence offset c =
      seek_to rounds fuel c (new_offset c.logic_offset whence offset)
