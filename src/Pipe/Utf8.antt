-- ===== src/Pipe/Utf8.antt =====
-- pipe/src/tokenizer.rs: `read_lookahead_character`, `read_more_characters` and `to_u8_lookahead`.
-- Characters are code points and bytes are numbers below 256, so that the test of a byte's high bits
-- is a quotient, its low bits are a remainder, and `|` of bits that do not overlap is a sum. The
-- source stream is the list of the chunks that it has yet to give.
pub mod Decode
pub mod Chunks
use flo_scene.Common.{
  ℕ, zero, suc, ◌+◌, ◌*◌, ◌/◌, ◌%◌, Bool, true, false, ◌&&◌, List, [], ◌∷◌, ◌++◌, Option, none,
  some, ltb, leb, ◌==◌, if◌then◌else◌, length, take, drop,
}

abbrev pub invalid_char : ℕ
invalid_char = 0

-- How many bytes follow a first byte above 127, and the bits of the character in it.
unfoldable pub num_extra : ℕ → Option (ℕ × ℕ)
num_extra first =
    if first / 32 == 6
    then some (1, first % 32)
    else if first / 16 == 14
    then some (2, first % 16)
    else if first / 8 == 30
    then some (3, first % 8)
    else none

-- `byte & 0b1100_0000 == 0b1000_0000`, for all of the bytes that follow.
unfoldable pub all_continue : List ℕ → Bool
all_continue [] = true
all_continue (b ∷ bs) = b / 64 == 2 && all_continue bs

-- `u32_chr`
unfoldable pub u32_chr : ℕ → List ℕ → ℕ
u32_chr first (a ∷ []) = first * 64 + a % 64
u32_chr first (a ∷ b ∷ []) = first * 4096 + a % 64 * 64 + b % 64
u32_chr first (a ∷ b ∷ c ∷ []) = first * 262144 + a % 64 * 4096 + b % 64 * 64 + c % 64
u32_chr first _ = first

unfoldable pub read_extra : ℕ → ℕ → List ℕ → Option (ℕ × List ℕ)
unfolding all_continue u32_chr
read_extra extra first rest =
    if ltb (length rest) extra
    then none
    else if all_continue (take extra rest)
    then some (u32_chr first (take extra rest), drop extra rest)
    else some (invalid_char, rest)

-- The character that `read_lookahead_character` pushes and the bytes that it leaves; `none` is its
-- result `false`.
unfoldable pub read_character : List ℕ → Option (ℕ × List ℕ)
unfolding num_extra read_extra
read_character [] = none
read_character (first ∷ rest) =
    if leb first 127 then some (first, rest) else elim (num_extra first) [
      | none ↦ some (invalid_char, rest)
      | some (extra, bits) ↦ read_extra extra bits rest
    ]

pub record Lookahead : Type 0 where
  pub lookahead_chars : List ℕ
  pub lookahead_bytes : List ℕ

unfoldable pub read_lookahead_character : Lookahead → Option Lookahead
unfolding read_character
read_lookahead_character l = elim (read_character l.lookahead_bytes) [
  | none ↦ none
  | some (c, rest) ↦
      some (record { lookahead_chars = l.lookahead_chars ++ c ∷ []; lookahead_bytes = rest })
]

-- `while self.read_lookahead_character() { }`, on fuel: a turn takes a byte at least.
unfoldable pub read_while : ℕ → Lookahead → Lookahead
unfolding read_lookahead_character
read_while zero l = l
read_while (suc n) l = elim (read_lookahead_character l) [ none ↦ l | some l' ↦ read_while n l' ]

-- The result, with the rest of the source stream and the lookahead.
unfoldable pub read_more_characters : List (List ℕ) → Lookahead → Bool × List (List ℕ) × Lookahead
unfolding read_lookahead_character read_while
read_more_characters [] l = elim (read_lookahead_character l) [
  | some l' ↦ (true, [], read_while (length l'.lookahead_bytes) l')
  | none ↦ (false, [], l)
]
read_more_characters (bytes ∷ stream) l = elim (read_lookahead_character l) [
  | some l' ↦ (true, bytes ∷ stream, read_while (length l'.lookahead_bytes) l')
  | none ↦ read_more_characters stream (record l { lookahead_bytes = l.lookahead_bytes ++ bytes })
]

-- The bytes of a character, as `String::bytes` gives them.
unfoldable pub encode_char : ℕ → List ℕ
encode_char c =
    if ltb c 128
    then c ∷ []
    else if ltb c 2048
    then (192 + c / 64) ∷ (128 + c % 64) ∷ []
    else if ltb c 65536
    then (224 + c / 4096) ∷ (128 + c / 64 % 64) ∷ (128 + c % 64) ∷ []
    else (240 + c / 262144) ∷ (128 + c / 4096 % 64) ∷ (128 + c / 64 % 64) ∷ (128 + c % 64) ∷ []

unfoldable pub encode : List ℕ → List ℕ
unfolding encode_char
encode [] = []
encode (c ∷ cs) = encode_char c ++ encode cs

unfoldable pub to_u8_lookahead : Lookahead → List ℕ
unfolding encode
to_u8_lookahead l = encode l.lookahead_chars ++ l.lookahead_bytes
