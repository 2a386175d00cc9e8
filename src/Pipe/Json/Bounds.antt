-- ===== src/Pipe/Json/Bounds.antt =====
-- pipe/src/parse_json.rs: a token is never longer than the lookahead, and never empty.
use flo_scene.Common.{ℕ, ◌+◌, ◌≤◌, Bool, true, false, List, [], ◌∷◌, ◌≡◌, refl, arith, length}
use flo_scene.Pipe.Tokenizer.{
  TokenMatchResult, matches, lookahead_is_prefix, lookahead_cannot_match,
}
use flo_scene.Pipe.Json.{
  JsonToken, spaces, match_whitespace, digits, number_ends, after_e, exponent, decimal, after_minus,
  match_number, string_rest, match_string, match_character,
}

-- A match of at least `low` and at most `high` characters, if there is one.
abbrev pub Between : ℕ → ℕ → TokenMatchResult JsonToken → Type 0
Between low high (matches t n) = (low ≤ n) × (n ≤ high)
Between low high _ = Unit

spaces-Between :
    (len : ℕ) (cs : List ℕ) (eof : Bool) → Between len (len + length cs) (spaces len cs eof)
unfolding spaces
spaces-Between len [] true = omega arith
spaces-Between len [] false = tt
spaces-Between len (c ∷ cs) eof = ground (arith, spaces-Between (len + 1) cs eof)

string-Between :
    (len : ℕ) (cs : List ℕ) (eof : Bool) → Between len (len + length cs) (string_rest len cs eof)
unfolding string_rest
string-Between len [] eof = ground arith
string-Between len (c ∷ []) eof = ground arith
string-Between len (c ∷ d ∷ cs) eof =
    ground (arith, string-Between (len + 2) cs eof, string-Between (len + 1) (d ∷ cs) eof)

digits-length :
    (len : ℕ) (cs : List ℕ)
    → (len ≤ (digits len cs).0) × ((digits len cs).0 + length (digits len cs).1 ≡ len + length cs)
unfolding digits
digits-length len [] = (omega arith, refl)
digits-length len (c ∷ cs) = ground (arith, digits-length (len + 1) cs)

number_ends-Between :
    (eof : Bool) (n : ℕ) (rest : List ℕ) → Between n (n + length rest) (number_ends eof (n, rest))
number_ends-Between eof n [] = ground arith
number_ends-Between eof n (c ∷ cs) = ground arith

widen :
    (low high low' high' : ℕ) (r : TokenMatchResult JsonToken)
    → low' ≤ low
    → high ≤ high'
    → Between low high r
    → Between low' high' r
widen low high low' high' (matches t n) l h (a, b) = (omega arith, omega arith)
widen low high low' high' lookahead_is_prefix l h b = tt
widen low high low' high' lookahead_cannot_match l h b = tt

after_e-Between :
    (len : ℕ) (cs : List ℕ) (eof : Bool) → Between len (len + 1 + length cs) (after_e len cs eof)
unfolding after_e
after_e-Between len [] eof = ground arith
after_e-Between len (c ∷ cs) eof =
    let (more, same) = digits-length (len + 2) cs in
    let p = digits (len + 2) cs in
    ground (
      arith,
      widen p.0 (p.0 + length p.1) len (len + 1 + length (c ∷ cs)) (number_ends eof p)
          (omega (arith, more)) (omega (arith, same)) (number_ends-Between eof p.0 p.1),
    )

exponent-Between :
    (n : ℕ) (cs : List ℕ) (eof : Bool) → Between n (n + length cs) (exponent (n, cs) eof)
unfolding exponent
exponent-Between n [] eof = ground arith
exponent-Between n (c ∷ cs) eof = ground (
  arith,
  widen n (n + 1 + length cs) n (n + length (c ∷ cs)) (after_e n cs eof) (omega arith) (omega arith)
      (after_e-Between n cs eof),
)

decimal-Between :
    (n : ℕ) (cs : List ℕ) (eof : Bool) → Between n (n + length cs) (decimal (n, cs) eof)
unfolding decimal
decimal-Between n [] eof = ground arith
decimal-Between n (c ∷ cs) eof =
    let (more, same) = digits-length (n + 1) cs in
    let p = digits (n + 1) cs in
    ground (
      arith,
      widen p.0 (p.0 + length p.1) n (n + length (c ∷ cs)) (exponent p eof) (omega (arith, more))
          (omega (arith, same)) (exponent-Between p.0 p.1 eof),
      exponent-Between n (c ∷ cs) eof,
    )

integer-Between :
    (len : ℕ) (cs : List ℕ) (eof : Bool)
    → Between len (len + length cs) (decimal (digits len cs) eof)
integer-Between len cs eof =
    let (more, same) = digits-length len cs in
    let p = digits len cs in
    widen p.0 (p.0 + length p.1) len (len + length cs) (decimal p eof) (omega (arith, more))
      (omega (arith, same)) (decimal-Between p.0 p.1 eof)

number-Between : (cs : List ℕ) (eof : Bool) → Between 1 (length cs) (match_number cs eof)
unfolding match_number after_minus
number-Between [] eof = tt
number-Between (c ∷ []) eof = ground (arith, integer-Between 1 [] eof)
number-Between (c ∷ d ∷ cs) eof = ground (
  arith,
  integer-Between 1 (d ∷ cs) eof,
  widen 2 (2 + length cs) 1 (length (c ∷ d ∷ cs)) (decimal (digits 2 cs) eof) (omega arith)
      (omega arith) (integer-Between 2 cs eof),
)

-- A match of white space, a number, a string or a character has one character at least, and no
-- more than the lookahead, so that cutting it off the lookahead makes progress and stays in range.
pub matchers-Between :
    (cs : List ℕ) (eof : Bool)
    → Between 1 (length cs) (match_whitespace cs eof)
      × Between 1 (length cs) (match_number cs eof)
      × Between 1 (length cs) (match_string cs eof)
      × Between 1 (length cs) (match_character cs eof)
unfolding match_whitespace match_string match_character
matchers-Between [] eof = (tt, number-Between [] eof, tt, tt)
matchers-Between (c ∷ cs) eof = (
  ground (arith, spaces-Between 1 cs eof),
  number-Between (c ∷ cs) eof,
  ground (arith, string-Between 1 cs eof),
  (omega arith, omega arith),
)
