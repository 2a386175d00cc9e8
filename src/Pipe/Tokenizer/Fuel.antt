-- ===== src/Pipe/Tokenizer/Fuel.antt =====
-- pipe/src/tokenizer.rs: the loops of `match_token` end.
use flo_scene.Common.{
  ℕ, zero, suc, ◌+◌, ◌≤◌, ◌<◌, Bool, true, false, ◌||◌, List, [], ◌∷◌, ◌++◌, ◌≡◌, refl, ap, arith,
  length, is_empty, inl, inr, Bool-cases, length-append, Option-cases,
}
use flo_scene.Pipe.Utf8.{Lookahead, read_character, read_more_characters, encode_char, encode}
use flo_scene.Pipe.Utf8.Decode.{decode, decode-some, decode-none, read_shrinks}
use flo_scene.Pipe.Utf8.Chunks.{concat, text_of, read_more_characters_lem}
use flo_scene.Pipe.Tokenizer.Text.{fill_text}
use flo_scene.Pipe.Tokenizer.{
  TokenMatcher, Tokenizer, byte_len, is_filled, fill, try_lookahead, match_loop, loop_fuel, longest,
  take_match, match_token,
}

-- A character takes a byte at least.
chars-byte_len : (cs : List ℕ) → length cs ≤ length (encode cs)
unfolding encode encode_char
chars-byte_len [] = omega arith
chars-byte_len (c ∷ cs) =
    ground (arith, chars-byte_len cs, length-append (encode_char c) (encode cs))

decode-length : (n : ℕ) (bytes : List ℕ) → length bytes ≤ n → length (decode bytes) ≤ length bytes
decode-length zero bytes fits = elim (Option-cases (read_character bytes)) [
  | inl stuck ↦ rw (decode-none bytes stuck) (omega arith)
  | inr ((c, rest), e) ↦ absurd (omega (arith, fits, read_shrinks bytes e))
]
decode-length (suc n) bytes fits = elim (Option-cases (read_character bytes)) [
  | inl stuck ↦ rw (decode-none bytes stuck) (omega arith)
  | inr ((c, rest), e) ↦
      let shorter = read_shrinks bytes e in
      rw (decode-some bytes e)
        (omega (arith, shorter, decode-length n rest (omega (arith, fits, shorter))))
]

fill_grows :
    (n : ℕ) (stream : List (List ℕ)) (l : Lookahead)
    → length l.lookahead_chars ≤ length (fill n stream l).2.lookahead_chars
unfolding fill
fill_grows zero stream l = omega arith
fill_grows (suc n) stream l =
    let more = read_more_characters stream l in
    let (_, on_true, on_false) = read_more_characters_lem stream l in
    elim (Bool-cases more.0) [
      | inr ended ↦ rw (ended, fill) (rw (on_false ended).1 (omega arith))
      | inl read ↦ elim (Bool-cases (is_filled l more.2)) [
        | inl enough ↦ rw (read, enough, fill) (omega (arith, on_true read))
        | inr short ↦
            rw (read, short, fill) (omega (arith, on_true read, fill_grows n more.1 more.2))
      ]
    ]

-- The turns of the inner loop, as the source has them: whether it sets `eof`, and what is left.
pub data Fills : List (List ℕ) → Lookahead → Bool × List (List ℕ) × Lookahead → Type 0 where
  at_end :
      {stream : List (List ℕ)} {l : Lookahead} {r : Bool × List (List ℕ) × Lookahead}
      → (read_more_characters stream l).0 ≡ false
      → r ≡ (true, (read_more_characters stream l).1, (read_more_characters stream l).2)
      → Fills stream l r
  has_enough :
      {stream : List (List ℕ)} {l : Lookahead} {r : Bool × List (List ℕ) × Lookahead}
      → (read_more_characters stream l).0 ≡ true
      → is_filled l (read_more_characters stream l).2 ≡ true
      → r ≡ (false, (read_more_characters stream l).1, (read_more_characters stream l).2)
      → Fills stream l r
  reads_again :
      {stream : List (List ℕ)} {l : Lookahead} {r : Bool × List (List ℕ) × Lookahead}
      → (read_more_characters stream l).0 ≡ true
      → is_filled l (read_more_characters stream l).2 ≡ false
      → Fills (read_more_characters stream l).1 (read_more_characters stream l).2 r
      → Fills stream l r

fill-Fills :
    (n : ℕ) (stream : List (List ℕ)) (l : Lookahead)
    → 0 < n
    → 32 ≤ length l.lookahead_chars + n
    → Fills stream l (fill n stream l)
unfolding fill
fill-Fills zero stream l pn hn = absurd (omega (arith, pn))
fill-Fills (suc n) stream l pn hn =
    let more = read_more_characters stream l in
    let read_more = (read_more_characters_lem stream l).1 in
    let bytes = chars-byte_len more.2.lookahead_chars in
    elim (Bool-cases more.0) [
      | inr over ↦ at_end over (rw (over, fill) refl)
      | inl read ↦ elim (Bool-cases (is_filled l more.2)) [
        | inl enough ↦ has_enough read enough (rw (read, enough, fill) refl)
        | inr short ↦
            let few : length more.2.lookahead_chars < 32 =
              unfold is_filled byte_len in ground (arith, short, bytes) in
            reads_again read short (
              rw (read, short, fill)
                (fill-Fills n more.1 more.2 (omega (arith, read_more read, few))
                  (omega (arith, read_more read))))
      ]
    ]

-- If the inner loop does not set `eof` it has read a character.
fill_reads :
    (n : ℕ) (stream : List (List ℕ)) (l : Lookahead)
    → (fill (suc n) stream l).0 ≡ false
    → length l.lookahead_chars < length (fill (suc n) stream l).2.lookahead_chars
unfolding fill
fill_reads n stream l goes_on =
    let more = read_more_characters stream l in
    let read_more = (read_more_characters_lem stream l).1 in
    elim (Bool-cases more.0) [
      | inr ended ↦ absurd (cc (rw (ended, fill) at goes_on))
      | inl read ↦ elim (Bool-cases (is_filled l more.2)) [
        | inl enough ↦ rw (read, enough, fill) (read_more read)
        | inr short ↦
            rw (read, short, fill) (omega (arith, read_more read, fill_grows n more.1 more.2))
      ]
    ]

-- The characters that are still to be read.
abbrev pending : List (List ℕ) → Lookahead → ℕ
pending stream l = length (decode (l.lookahead_bytes ++ concat stream))

pending-fill :
    (stream : List (List ℕ)) (l : Lookahead)
    → (fill 32 stream l).0 ≡ false
    → pending (fill 32 stream l).1 (fill 32 stream l).2 < pending stream l
unfolding text_of
pending-fill stream l goes_on =
    let l' = (fill 32 stream l).2 in
    let rest = decode (l'.lookahead_bytes ++ concat (fill 32 stream l).1) in
    let longer = fill_reads 31 stream l goes_on in
    let same = ap (λ cs. length cs) (fill_text 32 stream l) in
    let after = length-append l'.lookahead_chars rest in
    let before = length-append l.lookahead_chars (decode (l.lookahead_bytes ++ concat stream)) in
    omega (arith, longer, same, after, before)

-- The turns that the outer loop may still need.
abbrev turns : Bool → List (List ℕ) → Lookahead → ℕ
turns true stream l = 1
turns false stream l = pending stream l + 2

-- A turn that is not the last one uses up a turn at least.
turns_left :
    (stream : List (List ℕ)) (l : Lookahead) (n : ℕ)
    → turns false stream l ≤ suc n
    → turns (fill 32 stream l).0 (fill 32 stream l).1 (fill 32 stream l).2 ≤ n
turns_left stream l n fits = elim (Bool-cases (fill 32 stream l).0) [
  | inl ended ↦ rw ended (omega (arith, fits))
  | inr goes_on ↦
      let fewer = pending-fill stream l goes_on in rw goes_on (omega (arith, fits, fewer))
]

module _ {ℓ} {T : Type ℓ} where
  -- The turns of the outer loop, as the source has them: the matches, and what is left.
  pub data RunsTo
      : List (TokenMatcher T)
        → List (T × ℕ)
        → Bool
        → List (List ℕ)
        → Lookahead
        → List (T × ℕ) × List (List ℕ) × Lookahead
        → Type ℓ where
    breaks :
        {ms : List (TokenMatcher T)} {found : List (T × ℕ)} {eof : Bool} {stream : List (List ℕ)}
        {l : Lookahead} {r : List (T × ℕ) × List (List ℕ) × Lookahead}
        → (is_empty (try_lookahead l.lookahead_chars eof ms).0 || eof) ≡ true
        → r ≡ (found ++ (try_lookahead l.lookahead_chars eof ms).1, stream, l)
        → RunsTo ms found eof stream l r
    goes_round :
        {ms : List (TokenMatcher T)} {found : List (T × ℕ)} {eof : Bool} {stream : List (List ℕ)}
        {l : Lookahead} {r : List (T × ℕ) × List (List ℕ) × Lookahead}
        → (eof' : Bool) (stream' : List (List ℕ)) (l' : Lookahead)
        → (is_empty (try_lookahead l.lookahead_chars eof ms).0 || eof) ≡ false
        → Fills stream l (eof', stream', l')
        → RunsTo
            (try_lookahead l.lookahead_chars eof ms).0
            (found ++ (try_lookahead l.lookahead_chars eof ms).1)
            eof'
            stream'
            l'
            r
        → RunsTo ms found eof stream l r

  match_loop-RunsTo :
      (n : ℕ) (ms : List (TokenMatcher T)) (found : List (T × ℕ)) (eof : Bool)
      (stream : List (List ℕ)) (l : Lookahead)
      → turns eof stream l ≤ n
      → RunsTo ms found eof stream l (match_loop n ms found eof stream l)
  unfolding match_loop
  match_loop-RunsTo zero ms found true stream l hn = absurd (omega (arith, hn))
  match_loop-RunsTo zero ms found false stream l hn = absurd (omega (arith, hn))
  match_loop-RunsTo (suc n) ms found true stream l hn =
      let over : (is_empty (try_lookahead l.lookahead_chars true ms).0 || true) ≡ true =
        ground arith in
      breaks over (rw (over, match_loop) refl)
  match_loop-RunsTo (suc n) ms found false stream l hn =
      let tried = try_lookahead l.lookahead_chars false ms in
      let filling = fill 32 stream l in
      elim (Bool-cases (is_empty tried.0 || false)) [
        | inl over ↦ breaks over (rw (over, match_loop) refl)
        | inr more ↦
            goes_round filling.0 filling.1 filling.2 more
              (fill-Fills 32 stream l (omega arith) (omega arith))
              (rw (more, match_loop)
                (match_loop-RunsTo n tried.0 (found ++ tried.1) filling.0 filling.1 filling.2
                  (turns_left stream l n hn)))
      ]

  -- The two loops of `match_token` end, for any matchers: after finitely many turns, each of which
  -- does what a turn of the source's loop does and none of which is the last one for lack of fuel,
  -- the outer loop breaks, and `match_token` takes the longest of the matches that it has found.
  pub loops_end :
      (t : Tokenizer T)
      → (found : List (T × ℕ)) × (stream : List (List ℕ)) × (l : Lookahead) × RunsTo t.matchers []
          false t.source_stream t.lookahead
          (found, stream, l)
        × (match_token t ≡ take_match (longest found) stream l t)
  unfolding match_token
  loops_end t =
      let bytes = t.lookahead.lookahead_bytes ++ concat t.source_stream in
      let few = decode-length (length bytes) bytes (omega arith) in
      let (found, stream, l) =
        match_loop (loop_fuel t) t.matchers [] false t.source_stream t.lookahead in
      (
        found,
        stream,
        l,
        match_loop-RunsTo (loop_fuel t) t.matchers [] false t.source_stream t.lookahead
            (omega (arith, few)),
        refl,
      )
