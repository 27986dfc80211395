-- ===== src/Client/Rw/Sread.antt =====
-- `xpn_sread` on servers that hold the file.
use xpn.Prelude.{
  ℕ, zero, suc, ◌+◌, ◌-◌, ◌%◌, ◌≤◌, ◌<◌, ◌≡◌, refl, sym, ap, ◌∙◌, Bool, true, false, ◌&&◌, some, [],
  ◌∷◌, ◌++◌, arith, ltb, leb, length, length-append, length-take, length-drop, take, drop,
  take_over, Bool-cases, inl, inr, subst,
}
use xpn.Prelude.Int.{ℤ, pos, negsuc, ◌+ℤ◌}
use xpn.Metadata.{header_size}
use xpn.Policy.Block.{Placement}
use xpn.Policy.Transfer.{File, chunk}
use xpn.Policy.Transfer.Placed.{Placed, chunk_bounds}
use xpn.Policy.Transfer.Choice.{read_get_block-Alive}
use xpn.Policy.Grouping.{Bytes}
use xpn.Policy.Grouping.Gather.{slice, drop-drop}
use xpn.Client.Rw.{Filedesc, Nfi, sread_loop, sread}

length-slice : (content : Bytes) (at n : ℕ) → length (slice at n content) ≤ n
length-slice content at n = omega (arith, length-take n (drop at content))

-- A slice is as long as it can be.
slice_part : (content : Bytes) (at n : ℕ) → length (slice at n content) ≤ length content - at
slice_part content at n = omega (arith, length-take n (drop at content), length-drop at content)

take-add : (a b : ℕ) (xs : Bytes) → take a xs ++ take b (drop a xs) ≡ take (a + b) xs
take-add zero b xs = ap (λ n. take n xs) (let e : b ≡ 0 + b = omega arith in e)
take-add (suc a) b [] = take_over b [] (omega arith) ∙ sym (take_over (suc a + b) [] (omega arith))
take-add (suc a) b (x ∷ xs) =
    ap (λ t. x ∷ t) (take-add a b xs)
    ∙ ap (λ n. take n (x ∷ xs)) (let e : suc (a + b) ≡ suc a + b = omega arith in e)

slice-add :
    (content : Bytes) (at a b : ℕ)
    → slice at a content ++ slice (at + a) b content ≡ slice at (a + b) content
slice-add content at a b =
    ap (λ xs. slice at a content ++ take b xs) (sym (drop-drop at a content))
    ∙ take-add a b (drop at content)

take-length-take : (n : ℕ) (xs : Bytes) → take n xs ≡ take (length (take n xs)) xs
take-length-take zero xs = refl
take-length-take (suc n) [] = refl
take-length-take (suc n) (x ∷ xs) = ap (λ t. x ∷ t) (take-length-take n xs)

-- Two slices that reach the end of the file are the same.
slice_over :
    (content : Bytes) (at a b : ℕ)
    → length content ≤ at + a
    → length content ≤ at + b
    → slice at a content ≡ slice at b content
slice_over content at a b ha hb =
    take_over a (drop at content) (omega (arith, length-drop at content))
    ∙ sym (take_over b (drop at content) (omega (arith, length-drop at content)))

-- Each server has its handle and answers a read inside of a block with those bytes of the file that
-- the block's place stands for, which are fewer at the end of the file and none behind it.
pub record Holds {S : Type 0} (nfi : Nfi S) (st : S) (f : File) (local serv : (off rep : ℕ) → ℕ)
    (content : Bytes) : Type 0 where
  pub opened : (s : ℕ) → nfi.handle (pos s) ≡ true
  pub reads :
      (off rep m : ℕ)
      → rep ≤ f.replication_level
      → off % f.block_size + m ≤ f.block_size
      → nfi.nfi_read st (pos (serv off rep)) (pos (local off rep + header_size)) m
        ≡ some (slice off m content)

-- A round that is the last one has read all that there is.
last_round :
    (content : Bytes) (offset count l size : ℕ)
    → count ≡ length (slice offset count content)
    → 0 < l
    → l ≤ size - count
    → (ltb (length (slice offset (count + l) content)) size
        && ltb 0 (length (slice (offset + count) l content)))
      ≡ false
    → slice offset (count + l) content ≡ slice offset size content
last_round content offset count l size e l_pos l_le stop =
    elim (Bool-cases (ltb (length (slice offset (count + l) content)) size)) [
      | inr all ↦
          ap (λ n. slice offset n content)
            (let at_most : length (slice offset (count + l) content) ≤ count + l =
                length-slice content offset (count + l) in
              let sum : count + l ≡ size = ground (arith, all, at_most, l_le) in sum)
      | inl short ↦
          let none : ltb 0 (length (slice (offset + count) l content)) ≡ false =
            ap (λ b. b && ltb 0 (length (slice (offset + count) l content))) (sym short) ∙ stop in
          let over : length content ≤ offset + count = ended none in
          slice_over content offset (count + l) size (omega arith) (omega arith)
    ]
  where
    ended :
        ltb 0 (length (slice (offset + count) l content)) ≡ false → length content ≤ offset + count
    ended none =
        let nothing : length (slice (offset + count) l content) ≡ 0 = ground arith in
        omega (
          arith,
          nothing,
          length-take l (drop (offset + count) content),
          length-drop (offset + count) content,
        )

-- A round that another follows has read something, and not all that is asked for.
next_round :
    (content : Bytes) (offset count l size : ℕ)
    → count ≡ length (slice offset count content)
    → (ltb (length (slice offset (count + l) content)) size
        && ltb 0 (length (slice (offset + count) l content)))
      ≡ true
    → (length (slice offset (count + l) content) < size)
      × (count < length (slice offset (count + l) content))
next_round content offset count l size e more =
    let sum : length (slice offset count content) + length (slice (offset + count) l content)
        ≡ length (slice offset (count + l) content) =
      sym (length-append (slice offset count content) (slice (offset + count) l content))
      ∙ ap length (slice-add content offset count l) in
    let got : (length (slice offset (count + l) content) < size)
        × (0 < length (slice (offset + count) l content)) =
      ground (arith, more) in
    (got.0, omega (arith, e, sum, got.1))

module _ {S : Type 0} (nfi : Nfi S) (st : S) (f : File) (n : ℕ) (local serv : (off rep : ℕ) → ℕ)
    (pl : Placed f n local serv) (content : Bytes) (holds : Holds nfi st f local serv content)
    (local_serv : ℤ) (rand : ℕ → ℕ) (size offset : ℕ) where
  sread_loop-slice :
      (fuel count : ℕ) (out : Placement)
      → count ≡ length (slice offset count content)
      → count < size
      → size ≤ count + fuel
      → sread_loop nfi f size offset local_serv rand st fuel (slice offset count content) out
        ≡ some (pos (length (slice offset size content)), slice offset size content, false)
  unfolding sread_loop
  sread_loop-slice zero count out e lt enough = absurd (omega arith)
  sread_loop-slice (suc fuel) count out e lt enough =
      let here = offset + count in
      let (r, hr, at, _, _) =
        read_get_block-Alive f here n local serv pl local_serv (rand count) out in
      let l = chunk f.block_size here (size - count) in
      let (l_pos, l_le, l_fits) =
        chunk_bounds f.block_size here (size - count) pl.block_pos (omega arith) in
      let p : Placement = record { local_offset = pos (local here r); serv = pos (serv here r) } in
      let bs = slice offset (count + l) content in
      let goes_on : Bool = ltb (length bs) size && ltb 0 (length (slice here l content)) in
      rw
        (
          sym e,
          at,
          holds.opened (serv here r),
          holds.reads here r l hr l_fits,
          slice-add content offset count l,
        )
        (elim (Bool-cases goes_on) [
          | inl more ↦
              let (lt', further) = next_round content offset count l size e more in
              let same : bs ≡ slice offset (length bs) content =
                take-length-take (count + l) (drop offset content) in
              rw more (
                subst
                  (λ (xs : Bytes).
                    sread_loop nfi f size offset local_serv rand st fuel xs p
                    ≡ some (
                      pos (length (slice offset size content)),
                      slice offset size content,
                      false,
                    ))
                  (sym same)
                  (sread_loop-slice fuel (length bs) p (ap length same) lt' (omega arith)))
          | inr last ↦ rw last (
              ap (λ (xs : Bytes). some (pos (length xs), xs, false))
                (last_round content offset count l size e l_pos l_le last))
        ])

add_zero : (i : ℤ) → i +ℤ pos 0 ≡ i
add_zero (pos m) = ap pos (omega arith)
add_zero (negsuc m) = rw (
  (let e : leb (suc m) 0 ≡ false = ground arith in e),
  (let e : suc m - 0 - 1 ≡ m = omega arith in e),
)

-- On a file with a settled placement, whose servers have their handles and answer a read inside of
-- a block with the bytes of the file that belong there, as far as the file goes, `xpn_sread` of one
-- byte or more ends, stores the bytes of the file that were asked for, up to its end and no more,
-- returns their number and moves the offset behind them.
pub sread_complete :
    {S : Type 0} (nfi : Nfi S) (st : S) (d : Filedesc) (n : ℕ) (local serv : (off rep : ℕ) → ℕ)
    → Placed d.file n local serv
    → (content : Bytes) → Holds nfi st d.file local serv content
    → (local_serv : ℤ) (rand : ℕ → ℕ) (size offset : ℕ) (out : Placement) → 0 < size
    → 0 < n
    → sread nfi (pos n) local_serv rand st d size offset out
      ≡ some (
        pos (length (slice offset size content)),
        slice offset size content,
        record d { offset = d.offset +ℤ pos (length (slice offset size content)) },
      )
unfolding sread
sread_complete nfi st d n local serv pl content holds local_serv rand size offset out h servers =
    let bs = slice offset size content in
    rw
      (
        sread_loop-slice nfi st d.file n local serv pl content holds local_serv rand size offset
            (size + 1) 0 out refl h (omega arith),
        (let e : leb n 0 ≡ false = ground arith in e),
      )
      (elim (Bool-cases (ltb 0 (length bs))) [
        | inl some_byte ↦ rw some_byte
        | inr none ↦
            let nothing : length bs ≡ 0 = ground arith in
            rw none (
              ap (λ (o : ℤ). some (pos (length bs), bs, record d { offset = o }))
                (sym (add_zero d.offset) ∙ ap (λ n. d.offset +ℤ pos n) (sym nothing)))
      ])
