-- ===== src/Zfile/View.antt =====
-- What a reader of a compressed file has still to see, and how a round of `zfile_read` changes it.
use mathlib.Core.List.{append_assoc}
use the_silver_searcher.Base.{
  ℕ, zero, suc, ◌+◌, ◌≤◌, ◌<◌, ◌≡◌, ◌⊎◌, refl, sym, ap, ◌∙◌, false, some, List, [], ◌∷◌, ◌++◌,
  length, take, drop, length-append, length-take, take-drop, length-nil, ◌==◌, arith, inl, inr,
  dec_lt,
}
use the_silver_searcher.Zfile.{
  goes_on, at_end, Decoded, Cookie, in_size, pending, drain, fill_input,
}

drop-nil : (n : ℕ) → drop {A = ℕ} n [] ≡ []
drop-nil zero = refl
drop-nil (suc n) = refl

drop-add : (m n : ℕ) (xs : List ℕ) → drop (m + n) xs ≡ drop n (drop m xs)
drop-add zero n xs = let e : 0 + n ≡ n = omega arith in rw e refl
drop-add (suc m) n [] = drop-nil (suc m + n) ∙ sym (drop-nil n)
drop-add (suc m) n (x ∷ xs) =
    let e : suc m + n ≡ suc (m + n) = omega arith in rw e (drop-add m n xs)

append-take-drop : (n : ℕ) (xs : List ℕ) → take n xs ++ drop (length (take n xs)) xs ≡ xs
append-take-drop zero xs = refl
append-take-drop (suc n) [] = refl
append-take-drop (suc n) (x ∷ xs) = ap (λ ys. x ∷ ys) (append-take-drop n xs)

pub drop-all : (n : ℕ) (xs : List ℕ) → length xs ≤ n → drop n xs ≡ []
drop-all n [] le = drop-nil n
drop-all zero (x ∷ xs) le = absurd (omega (arith, le))
drop-all (suc n) (x ∷ xs) le = drop-all n xs (omega (arith, le))

-- A piece of the file is not empty where the file is not.
piece-pos : (n : ℕ) (xs : List ℕ) → 0 < n → 0 < length xs → 0 < length (take n xs)
piece-pos n xs n-pos pos = let e = length-take n xs in ground (arith, e, n-pos, pos)

module _ {Z : Type 0} where
  -- What zlib and lzma document. `Whole z i` says that in the state `z` the input `i` has the end of the stream,
  -- and `rest z i` is what it is still to be decompressed to. A call with some of that input writes the bytes that
  -- are next, and goes on with input or output used up, or is at the end.
  pub record Decodes (rest : Z → (input : List ℕ) → List ℕ) (Whole : Z → (input : List ℕ) → Type 0)
      (decode : Z → (input : List ℕ) → Decoded Z) : Type 0 where
    pub some_input : (z : Z) (i : List ℕ) → Whole z i → 0 < length i
    pub splits :
        (z : Z) (avail unread : List ℕ)
        → 0 < length avail
        → Whole z (avail ++ unread)
        → (decode z avail).bytes ++ rest (decode z avail).coder ((decode z avail).left ++ unread)
          ≡ rest z (avail ++ unread)
    pub steps :
        (z : Z) (avail unread : List ℕ)
        → 0 < length avail
        → Whole z (avail ++ unread)
        → (((decode z avail).step ≡ goes_on)
            × Whole (decode z avail).coder ((decode z avail).left ++ unread)
            × (length (decode z avail).left
                  + length (rest (decode z avail).coder ((decode z avail).left ++ unread))
                < length avail + length (rest z (avail ++ unread))))
          ⊎ (((decode z avail).step ≡ at_end)
              × (rest (decode z avail).coder ((decode z avail).left ++ unread) ≡ [])
              × (length (decode z avail).left ≤ length avail))

  module _ (rest : Z → (input : List ℕ) → List ℕ) where
    -- What is still to be decompressed.
    abbrev pub ahead : Cookie Z → List ℕ
    ahead c = rest c.coder (c.avail ++ c.unread)

    -- What a reader has still to see.
    abbrev pub view : Cookie Z → List ℕ
    view c = pending c ++ ahead c

    -- The steps that are left at most.
    abbrev pub to_do : Cookie Z → ℕ
    to_do c = length c.avail + length c.unread + length (ahead c)

    -- The bytes that a reader saw from `c` to `c'`.
    pub record Moves (c : Cookie Z) (bytes : List ℕ) (c' : Cookie Z) : Type 0 where
      pub reads : bytes ++ view c' ≡ view c
      pub logic : c'.logic_offset ≡ c.logic_offset + length bytes
      pub decoded : c'.decode_offset ≡ c.decode_offset + length bytes
      pub fewer : to_do c' ≤ to_do c

    pub Moves-append :
        (c c₁ c₂ : Cookie Z) (xs ys : List ℕ)
        → Moves c xs c₁
        → Moves c₁ ys c₂
        → Moves c (xs ++ ys) c₂
    Moves-append c c₁ c₂ xs ys m n = record {
      reads = append_assoc xs ys (view c₂) ∙ ap (λ q. xs ++ q) n.reads ∙ m.reads;
      logic = omega (arith, m.logic, n.logic, length-append xs ys);
      decoded = omega (arith, m.decoded, n.decoded, length-append xs ys);
      fewer = omega (arith, m.fewer, n.fewer);
    }

    -- Draining takes from the view, and leaves the rest of the cookie.
    pub drain-Moves : (size : ℕ) (c : Cookie Z) → Moves c (drain size c).0 (drain size c).1
    unfolding drain
    drain-Moves size c =
        let p = pending c in
        let bytes = take size p in
        record {
          reads =
              ap (λ q. bytes ++ (q ++ ahead c)) (drop-add c.outbuf_start (length bytes) c.outbuf)
              ∙ sym (append_assoc bytes (drop (length bytes) p) (ahead c))
              ∙ ap (λ q. q ++ ahead c) (append-take-drop size p);
          logic = refl;
          decoded = refl;
          fewer = omega arith;
        }

  pub drain-coder :
      (size : ℕ) (c : Cookie Z)
      → ((drain size c).1.coder ≡ c.coder)
        × ((drain size c).1.avail ≡ c.avail)
        × ((drain size c).1.unread ≡ c.unread)
        × ((drain size c).1.eof ≡ c.eof)
  unfolding drain
  drain-coder size c = (refl, refl, refl, refl)

  -- Either all that is asked for is there, or nothing is left of the output.
  pub drain-stops :
      (size : ℕ) (c : Cookie Z)
      → (length (drain size c).0 ≡ size)
        ⊎ ((pending (drain size c).1 ≡ []) × (length (drain size c).0 < size))
  unfolding drain
  drain-stops size c =
      let p = pending c in
      let len = length-take size p in
      elim (dec_lt (length p) size) [
        | yes lt ↦
            let all : length (take size p) ≡ length p = omega (arith, len, lt) in
            inr (
              drop-add c.outbuf_start (length (take size p)) c.outbuf
                  ∙ drop-all (length (take size p)) p (omega (arith, all)),
              omega (arith, all, lt),
            )
        | no ge ↦ inl (omega (arith, len, ge))
      ]

  pub drain-full :
      (size : ℕ) (c : Cookie Z) → size ≤ length (pending c) → length (drain size c).0 ≡ size
  unfolding drain
  drain-full size c le = omega (arith, length-take size (pending c), le)

  -- The input for the next call.
  pub fill_input-some :
      (c : Cookie Z)
      → 0 < length (c.avail ++ c.unread)
      → (a u : List ℕ) × (fill_input c ≡ some (record c { avail = a; unread = u }))
        × (0 < length a)
        × (a ++ u ≡ c.avail ++ c.unread)
  unfolding fill_input
  fill_input-some c pos = elim (dec_lt 0 (length c.avail)) [
    | yes lt ↦
        let e : (length c.avail == 0) ≡ false = ground (arith, lt) in
        (c.avail, c.unread, simp e refl, lt, refl)
    | no empty ↦
        let e₁ : length c.avail ≡ 0 = omega (arith, empty) in
        let left : 0 < length c.unread = omega (arith, pos, e₁, length-append c.avail c.unread) in
        let e₂ : (length c.unread == 0) ≡ false = ground (arith, left) in
        (
          take in_size c.unread,
          drop in_size c.unread,
          simp (e₁, e₂) refl,
          piece-pos in_size c.unread (omega arith) left,
          take-drop in_size c.unread ∙ sym (ap (λ q. q ++ c.unread) (length-nil c.avail e₁)),
        )
  ]
