-- ===== src/Pipe/Utf8/Chunks.antt =====
-- pipe/src/tokenizer.rs: the text that is read does not depend on how its bytes arrive.
use mathlib.Core.Option.{some-injective}
use flo_scene.Common.{
  take, drop, ltb, leb, Bool-cases, sym, subst, append-nil, ℕ, zero, suc, ◌+◌, ◌≤◌, ◌<◌, Bool, true,
  false, List, [], ◌∷◌, ◌++◌, none, some, ◌≡◌, refl, ap, ◌∙◌, arith, length, inl, inr, Option-cases,
  append_assoc, length-append,
}
use flo_scene.Pipe.Utf8.{
  Lookahead, num_extra, all_continue, read_extra, read_character, read_lookahead_character,
  read_while, read_more_characters,
}
use flo_scene.Pipe.Utf8.Decode.{decode, decode-some, read_shrinks, read_character-append}

abbrev pub concat : List (List ℕ) → List ℕ
concat [] = []
concat (bytes ∷ stream) = bytes ++ concat stream

-- All the text that is still to come, with what has been read of it.
unfoldable pub text_of : List (List ℕ) → Lookahead → List ℕ
text_of stream l = l.lookahead_chars ++ decode (l.lookahead_bytes ++ concat stream)

-- All the bytes that are still to come.
abbrev pub bytes_of : List (List ℕ) → Lookahead → List ℕ
bytes_of stream l = l.lookahead_bytes ++ concat stream

-- What a reader that has stopped has read: it has taken bytes from the front, the others are left, the
-- text is the same, and no character is left in its bytes.
pub record Reads (stream stream' : List (List ℕ)) (l l' : Lookahead) : Type 0 where
  pub taken : List ℕ
  pub same_bytes : taken ++ bytes_of stream' l' ≡ bytes_of stream l
  pub same_text : text_of stream' l' ≡ text_of stream l
  pub no_more : read_character l'.lookahead_bytes ≡ none

take-drop : (n : ℕ) (bytes : List ℕ) → take n bytes ++ drop n bytes ≡ bytes
take-drop zero bytes = refl
take-drop (suc n) [] = refl
take-drop (suc n) (b ∷ bytes) = ap (λ bs. b ∷ bs) (take-drop n bytes)

-- The rest of some bytes, of which a character was read.
abbrev IsRest : List ℕ → List ℕ → Type 0
IsRest bytes rest = (front : List ℕ) × (front ++ rest ≡ bytes)

read_extra-IsRest :
    (extra bits : ℕ) (bytes : List ℕ) {c : ℕ} {rest : List ℕ}
    → read_extra extra bits bytes ≡ some (c, rest)
    → IsRest bytes rest
unfolding read_extra
read_extra-IsRest extra bits bytes e = elim (Bool-cases (ltb (length bytes) extra)) [
  | inl short ↦ absurd (cc (rw (short, read_extra) at e))
  | inr long ↦ elim (Bool-cases (all_continue (take extra bytes))) [
    | inl continue ↦
        (take extra bytes, cc (rw (long, continue, read_extra) at e, take-drop extra bytes))
    | inr broken ↦ ([], cc (rw (long, broken, read_extra) at e))
  ]
]

read_character-IsRest :
    (bytes : List ℕ) {c : ℕ} {rest : List ℕ}
    → read_character bytes ≡ some (c, rest)
    → IsRest bytes rest
unfolding read_character
read_character-IsRest [] e = absurd (cc e)
read_character-IsRest (first ∷ bytes) e = elim (Bool-cases (leb first 127)) [
  | inl ascii ↦ (first ∷ [], cc (rw (ascii, read_character) at e))
  | inr other ↦ elim (Option-cases (num_extra first)) [
    | inl invalid ↦ (first ∷ [], cc (rw (other, invalid, read_character) at e))
    | inr ((extra, bits), found) ↦
        let (front, is) =
          read_extra-IsRest extra bits bytes (rw (other, found, read_character) at e) in
        (first ∷ front, ap (λ bs. first ∷ bs) is)
  ]
]

read_one :
    (stream : List (List ℕ)) (l l' : Lookahead)
    → read_lookahead_character l ≡ some l'
    → (text_of stream l' ≡ text_of stream l)
      × IsRest (bytes_of stream l) (bytes_of stream l')
      × (length l'.lookahead_bytes < length l.lookahead_bytes)
      × (length l'.lookahead_chars ≡ length l.lookahead_chars + 1)
unfolding read_lookahead_character text_of
read_one stream l l' e = elim (Option-cases (read_character l.lookahead_bytes)) [
  | inl stuck ↦ absurd (cc (rw (stuck, read_lookahead_character) at e))
  | inr ((c, rest), is) ↦
      let done = rw (is, read_lookahead_character) at e in
      let next =
        decode-some (l.lookahead_bytes ++ concat stream)
          (read_character-append l.lookahead_bytes (concat stream) is) in
      let front = read_character-IsRest l.lookahead_bytes is in
      let shorter = read_shrinks l.lookahead_bytes is in
      let longer = length-append l.lookahead_chars (c ∷ []) in
      (
        cc (done, next, append_assoc l.lookahead_chars (c ∷ []) (decode (rest ++ concat stream))),
        (
          front.0,
          subst (λ k. front.0 ++ bytes_of stream k ≡ bytes_of stream l) (some-injective _ _ done)
              (sym (append_assoc front.0 rest (concat stream))
                ∙ ap (λ bs. bs ++ concat stream) front.1),
        ),
        ground (arith, done, shorter),
        ground (arith, done, longer),
      )
]

no_lookahead :
    (l : Lookahead) → read_lookahead_character l ≡ none → read_character l.lookahead_bytes ≡ none
unfolding read_lookahead_character
no_lookahead l e = elim (Option-cases (read_character l.lookahead_bytes)) [
  | inl stuck ↦ stuck
  | inr ((c, rest), is) ↦ absurd (cc (rw (is, read_lookahead_character) at e))
]

-- What is read after a character has been read.
after_one :
    (stream stream' : List (List ℕ)) (l l' l'' : Lookahead)
    → text_of stream l' ≡ text_of stream l
    → IsRest (bytes_of stream l) (bytes_of stream l')
    → Reads stream stream' l' l''
    → Reads stream stream' l l''
after_one stream stream' l l' l'' text (front, is) rest = record {
  taken = front ++ rest.taken;
  same_bytes =
      append_assoc front rest.taken (bytes_of stream' l'')
      ∙ (ap (λ bs. front ++ bs) rest.same_bytes ∙ is);
  same_text = rest.same_text ∙ text;
  no_more = rest.no_more;
}

while-Reads :
    (n : ℕ) (stream : List (List ℕ)) (l : Lookahead)
    → length l.lookahead_bytes ≤ n
    → Reads stream stream l (read_while n l)
      × (length l.lookahead_chars ≤ length (read_while n l).lookahead_chars)
unfolding read_while
while-Reads zero stream l fits = elim (Option-cases (read_lookahead_character l)) [
  | inl stuck ↦ (
    record { taken = []; same_bytes = refl; same_text = refl; no_more = no_lookahead l stuck },
    omega arith,
  )
  | inr (l', e) ↦ let one = read_one stream l l' e in absurd (omega (arith, one.2))
]
while-Reads (suc n) stream l fits = elim (Option-cases (read_lookahead_character l)) [
  | inl stuck ↦
      rw (stuck, read_while)
        (
          record {
            taken = [];
            same_bytes = refl;
            same_text = refl;
            no_more = no_lookahead l stuck;
          },
          omega arith,
        )
  | inr (l', e) ↦
      let one = read_one stream l l' e in
      let (rest, longer) = while-Reads n stream l' (omega (arith, one.2)) in
      rw (e, read_while)
        (
          after_one stream stream l l' (read_while n l') one.0 one.1 rest,
          omega (arith, one.2, longer),
        )
]

abbrev pub MoreRead : List (List ℕ) → Lookahead → Bool × List (List ℕ) × Lookahead → Type 0
MoreRead stream l (found, stream', l') =
    Reads stream stream' l l'
    × ((found ≡ true) → length l.lookahead_chars < length l'.lookahead_chars)
    × ((found ≡ false)
        → (stream' ≡ [])
          × (l'.lookahead_chars ≡ l.lookahead_chars)
          × (l'.lookahead_bytes ≡ bytes_of stream l))

found_more :
    (stream : List (List ℕ)) (l l' : Lookahead)
    → read_lookahead_character l ≡ some l'
    → MoreRead stream l (true, stream, read_while (length l'.lookahead_bytes) l')
found_more stream l l' e =
    let one = read_one stream l l' e in
    let (rest, longer) = while-Reads (length l'.lookahead_bytes) stream l' (omega arith) in
    (
      after_one stream stream l l' (read_while (length l'.lookahead_bytes) l') one.0 one.1 rest,
      λ _. omega (arith, one.2, longer),
      λ h. cc h,
    )

-- Reading more characters loses no byte and makes up no character: bytes are taken from the front of
-- those at hand and in the chunks, and the others are left, in order; the text that was read followed
-- by the text that the remaining bytes and chunks decode to is the same before and after, wherever
-- the chunks are cut. If the result is true a character was added at least, and all that the bytes at
-- hand decode to; if it is false the source is at its end, no character was added, and all the bytes
-- that there were are at hand.
pub read_more_characters_lem :
    (stream : List (List ℕ)) (l : Lookahead) → MoreRead stream l (read_more_characters stream l)
unfolding read_more_characters
read_more_characters_lem [] l = elim (Option-cases (read_lookahead_character l)) [
  | inl stuck ↦
      rw (stuck, read_more_characters)
        (
          record {
            taken = [];
            same_bytes = refl;
            same_text = refl;
            no_more = no_lookahead l stuck;
          },
          λ h. cc h,
          λ h. (refl, refl, sym (append-nil l.lookahead_bytes)),
        )
  | inr (l', e) ↦ rw (e, read_more_characters) (found_more [] l l' e)
]
read_more_characters_lem (bytes ∷ stream) l = elim (Option-cases (read_lookahead_character l)) [
  | inl stuck ↦
      let (rest, on_true, on_false) =
        read_more_characters_lem stream
          (record l { lookahead_bytes = l.lookahead_bytes ++ bytes }) in
      let text = append_assoc l.lookahead_bytes bytes (concat stream) in
      rw (stuck, read_more_characters)
        (
          record {
            taken = rest.taken;
            same_bytes = rest.same_bytes ∙ text;
            same_text =
                rest.same_text ∙ unfold text_of in ap (λ bs. l.lookahead_chars ++ decode bs) text;
            no_more = rest.no_more;
          },
          on_true,
          λ h. ((on_false h).0, (on_false h).1, (on_false h).2 ∙ text),
        )
  | inr (l', e) ↦ rw (e, read_more_characters) (found_more (bytes ∷ stream) l l' e)
]
