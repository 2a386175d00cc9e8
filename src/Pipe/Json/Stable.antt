-- ===== src/Pipe/Json/Stable.antt =====
-- pipe/src/parse_json.rs: a matcher does not change its mind as more characters arrive.
use flo_scene.Common.{
  Bool-cases, inl, inr, ◌⊎◌, ℕ, ◌+◌, Bool, false, List, [], ◌∷◌, ◌++◌, ◌≡◌, ◌≢◌, refl, arith,
}
use flo_scene.Pipe.Tokenizer.{lookahead_is_prefix}
use flo_scene.Pipe.Json.{
  is_digit, spaces, match_whitespace, digits, after_e, exponent, decimal, after_minus, match_number,
  string_rest, match_string,
}

spaces_stable :
    (len : ℕ) (cs more : List ℕ) (eof : Bool)
    → spaces len cs false ≢ lookahead_is_prefix
    → spaces len (cs ++ more) eof ≡ spaces len cs false
unfolding spaces
spaces_stable len [] more eof decided = absurd (decided refl)
spaces_stable len (c ∷ cs) more eof decided = ground (arith, spaces_stable (len + 1) cs more eof)

string_stable :
    (len : ℕ) (cs more : List ℕ) (eof : Bool)
    → string_rest len cs false ≢ lookahead_is_prefix
    → string_rest len (cs ++ more) eof ≡ string_rest len cs false
unfolding string_rest
string_stable len [] more eof decided = absurd (decided refl)
string_stable len (c ∷ []) [] eof decided = ground arith
string_stable len (c ∷ []) (m ∷ more) eof decided = ground arith
string_stable len (c ∷ d ∷ cs) more eof decided =
    ground (arith, string_stable (len + 2) cs more eof, string_stable (len + 1) (d ∷ cs) more eof)

-- A loop over digits runs out of characters, or stops at one and does so with more of them.
digits_cases :
    (len : ℕ) (cs more : List ℕ)
    → ((n : ℕ) × (digits len cs ≡ (n, [])))
      ⊎ ((n : ℕ) × (d : ℕ) × (ds : List ℕ) × (digits len cs ≡ (n, d ∷ ds))
          × (digits len (cs ++ more) ≡ (n, d ∷ (ds ++ more))))
unfolding digits
digits_cases len [] more = inl (len, refl)
digits_cases len (c ∷ cs) more = elim (Bool-cases (is_digit c)) [
  | inr other ↦ inr (len, c, cs, rw (other, digits) refl, rw (other, digits) refl)
  | inl digit ↦ elim (digits_cases (len + 1) cs more) [
    | inl (n, e) ↦ inl (n, rw (digit, digits) e)
    | inr (n, d, ds, e, f) ↦ inr (n, d, ds, rw (digit, digits) e, rw (digit, digits) f)
  ]
]

after_e_stable :
    (len : ℕ) (cs more : List ℕ) (eof : Bool)
    → after_e len cs false ≢ lookahead_is_prefix
    → after_e len (cs ++ more) eof ≡ after_e len cs false
unfolding after_e
after_e_stable len [] more eof decided = absurd (decided refl)
after_e_stable len (c ∷ cs) more eof decided = elim (digits_cases (len + 2) cs more) [
  | inl (n, e) ↦ ground (arith, e)
  | inr (n, d, ds, e, f) ↦ ground (arith, e, f)
]

exponent_stable :
    (n d : ℕ) (ds more : List ℕ) (eof : Bool)
    → exponent (n, d ∷ ds) false ≢ lookahead_is_prefix
    → exponent (n, d ∷ (ds ++ more)) eof ≡ exponent (n, d ∷ ds) false
unfolding exponent
exponent_stable n d ds more eof decided = ground (arith, after_e_stable n ds more eof)

decimal_stable :
    (n d : ℕ) (ds more : List ℕ) (eof : Bool)
    → decimal (n, d ∷ ds) false ≢ lookahead_is_prefix
    → decimal (n, d ∷ (ds ++ more)) eof ≡ decimal (n, d ∷ ds) false
unfolding decimal
decimal_stable n d ds more eof decided = elim (digits_cases (n + 1) ds more) [
  | inl (m, e) ↦ ground (arith, e, exponent_stable n d ds more eof, exponent_none m)
  | inr (m, x, xs, e, f) ↦
      ground (arith, e, f, exponent_stable n d ds more eof, exponent_stable m x xs more eof)
]
  where
    exponent_none : (m : ℕ) → exponent (m, []) false ≡ lookahead_is_prefix
    exponent_none m = unfold exponent in refl

integer_stable :
    (len : ℕ) (cs more : List ℕ) (eof : Bool)
    → decimal (digits len cs) false ≢ lookahead_is_prefix
    → decimal (digits len (cs ++ more)) eof ≡ decimal (digits len cs) false
integer_stable len cs more eof decided = elim (digits_cases len cs more) [
  | inl (m, e) ↦ absurd (decided (rw e (unfold decimal in refl)))
  | inr (m, x, xs, e, f) ↦
      rw (e, f) (decimal_stable m x xs more eof (λ prefix. decided (rw e prefix)))
]

number_stable :
    (cs more : List ℕ) (eof : Bool)
    → match_number cs false ≢ lookahead_is_prefix
    → match_number (cs ++ more) eof ≡ match_number cs false
unfolding match_number after_minus
number_stable [] more eof decided = absurd (decided refl)
number_stable (c ∷ []) more eof decided = ground (arith, integer_stable 1 [] more eof)
number_stable (c ∷ d ∷ cs) more eof decided =
    ground (arith, integer_stable 1 (d ∷ cs) more eof, integer_stable 2 cs more eof)

-- The matchers of white space, numbers and strings keep what they say of a lookahead, unless they
-- say that it is a prefix: with more characters, at the end of the file or not, they say the same.
pub matchers_stable :
    (cs more : List ℕ) (eof : Bool)
    → (match_whitespace cs false ≢ lookahead_is_prefix
        → match_whitespace (cs ++ more) eof ≡ match_whitespace cs false)
      × (match_number cs false ≢ lookahead_is_prefix
          → match_number (cs ++ more) eof ≡ match_number cs false)
      × (match_string cs false ≢ lookahead_is_prefix
          → match_string (cs ++ more) eof ≡ match_string cs false)
unfolding match_whitespace match_string
matchers_stable [] more eof =
    (λ d. absurd (d refl), number_stable [] more eof, λ d. absurd (d refl))
matchers_stable (c ∷ cs) more eof = (
  λ d. ground (arith, spaces_stable 1 cs more eof),
  number_stable (c ∷ cs) more eof,
  λ d. ground (arith, string_stable 1 cs more eof),
)
