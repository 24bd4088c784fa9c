-- ===== src/Tests/Texts.antt =====
-- Texts as lists of numbers, and the order of texts, for the tests of the friend protocol.
use nkc.Base.{
  ℕ, zero, suc, ◌+◌, ◌≤◌, ◌≡◌, refl, sym, ap, ◌∙◌, ◌⊎◌, inl, inr, Bool, true, false, Option, none,
  some, List, [], ◌∷◌, String, length, arith, ltb, ◌==◌, if◌then◌else◌, str_eq, eq_iff, Bool-cases,
}
use nkc.Base.Text.{trim}
use Prim.Native.Nat.{Ordering, compare}
use Prim.Native.Char.{Char, char, code, nul, IsScalar}
use text.Mathlib.TextEquality.{Char-path}

true-false : true ≡ false → ⊥
true-false e = cc

Ordering-cases : (o : Ordering) → (o ≡ Ordering.lt) ⊎ (o ≡ Ordering.eq) ⊎ (o ≡ Ordering.gt)
Ordering-cases Ordering.lt = inl refl
Ordering-cases Ordering.eq = inr (inl refl)
Ordering-cases Ordering.gt = inr (inr refl)

pub IsScalar-cases : (n : ℕ) → IsScalar n ⊎ (IsScalar n → ⊥)
IsScalar-cases n = elim (Ordering-cases (compare n 55296)) [
  | inl e ↦ inl (rw e tt)
  | inr (inl e) ↦ elim (Ordering-cases (compare 57343 n)) [
    | inl f ↦ elim (Ordering-cases (compare n 1114112)) [
      | inl g ↦ inl (rw (e, f, g) tt)
      | inr (inl g) ↦ inr (rw (e, f, g) (λ h. h))
      | inr (inr g) ↦ inr (rw (e, f, g) (λ h. h))
    ]
    | inr (inl f) ↦ inr (rw (e, f) (λ h. h))
    | inr (inr f) ↦ inr (rw (e, f) (λ h. h))
  ]
  | inr (inr e) ↦ elim (Ordering-cases (compare 57343 n)) [
    | inl f ↦ elim (Ordering-cases (compare n 1114112)) [
      | inl g ↦ inl (rw (e, f, g) tt)
      | inr (inl g) ↦ inr (rw (e, f, g) (λ h. h))
      | inr (inr g) ↦ inr (rw (e, f, g) (λ h. h))
    ]
    | inr (inl f) ↦ inr (rw (e, f) (λ h. h))
    | inr (inr f) ↦ inr (rw (e, f) (λ h. h))
  ]
]

unfoldable pub to_char : ℕ → Char
to_char n = elim (IsScalar-cases n) [ inl p ↦ char n p | inr p ↦ nul ]

to_char-code : (c : Char) → to_char (code c) ≡ c
unfolding to_char
to_char-code (char n p) =
    elim (IsScalar-cases n) as (λ x. elim x [ inl q ↦ char n q | inr q ↦ nul ] ≡ char n p) [
      | inl q ↦ Char-path (char n q) (char n p) refl
      | inr f ↦ absurd (f p)
    ]

abbrev pub put_text : String → List ℕ → List ℕ
put_text String.[] t = 0 ∷ t
put_text (String.◌∷◌ c s) t = 1 ∷ code c ∷ put_text s t

abbrev and_char : ℕ → Option (String × List ℕ) → Option (String × List ℕ)
and_char n none = none
and_char n (some (s, t)) = some (String.◌∷◌ (to_char n) s, t)

unfoldable pub get_text : List ℕ → Option (String × List ℕ)
get_text [] = none
get_text (zero ∷ t) = some (String.[], t)
get_text (suc m ∷ []) = none
get_text (suc m ∷ n ∷ t) = and_char n (get_text t)

pub get-put_text : (s : String) (t : List ℕ) → get_text (put_text s t) ≡ some (s, t)
unfolding get_text
get-put_text String.[] t = refl
get-put_text (String.◌∷◌ c s) t =
    ap (and_char (code c)) (get-put_text s t) ∙ ap (λ d. some (String.◌∷◌ d s, t)) (to_char-code c)

abbrev pub text_lt : String → String → Bool
text_lt String.[] String.[] = false
text_lt String.[] (String.◌∷◌ d t) = true
text_lt (String.◌∷◌ c s) String.[] = false
text_lt (String.◌∷◌ c s) (String.◌∷◌ d t) =
    let rest = text_lt s t in
    if ltb (code c) (code d) then true else if code c == code d then rest else false

pub text_lt_asym : (s t : String) → text_lt s t ≡ true → text_lt t s ≡ false
text_lt_asym String.[] String.[] h = refl
text_lt_asym String.[] (String.◌∷◌ d t) h = refl
text_lt_asym (String.◌∷◌ c s) String.[] h = cc
text_lt_asym (String.◌∷◌ c s) (String.◌∷◌ d t) h = ground (arith, text_lt_asym s t)

tails_differ :
    (c d : Char) (s t : String)
    → c ≡ d
    → str_eq (String.◌∷◌ c s) (String.◌∷◌ d t) ≡ false
    → str_eq s t ≡ false
tails_differ c d s t same differ = elim (Bool-cases (str_eq s t)) [
  | inr e ↦ e
  | inl e ↦
      let equal : s ≡ t = (eq_iff s t).0 e in
      let whole : String.◌∷◌ c s ≡ String.◌∷◌ d t = λ i. String.◌∷◌ (same i) (equal i) in
      let yes : str_eq (String.◌∷◌ c s) (String.◌∷◌ d t) ≡ true =
        (eq_iff (String.◌∷◌ c s) (String.◌∷◌ d t)).1 whole in
      absurd (true-false (sym yes ∙ differ))
]

pub text_lt_total : (s t : String) → str_eq s t ≡ false → text_lt s t ≡ false → text_lt t s ≡ true
text_lt_total String.[] String.[] differ h = cc
text_lt_total String.[] (String.◌∷◌ d t) differ h = cc
text_lt_total (String.◌∷◌ c s) String.[] differ h = refl
text_lt_total (String.◌∷◌ c s) (String.◌∷◌ d t) differ h = elim (Bool-cases (code c == code d)) [
  | inr e ↦ ground arith
  | inl e ↦
      let same : code c ≡ code d = ground arith in
      let tails : str_eq s t ≡ false = tails_differ c d s t (Char-path c d same) differ in
      ground (arith, text_lt_total s t tails)
]

pub length-put_text : (s : String) (t : List ℕ) → length t ≤ length (put_text s t)
length-put_text String.[] t = omega arith
length-put_text (String.◌∷◌ c s) t = omega (arith, length-put_text s t)

not_empty : (c : Char) (s : String) → str_eq (String.◌∷◌ c s) "" ≡ false
not_empty c s = elim (Bool-cases (str_eq (String.◌∷◌ c s) "")) [
  | inr e ↦ e
  | inl e ↦ let empty : String.◌∷◌ c s ≡ "" = (eq_iff (String.◌∷◌ c s) "").0 e in cc
]

-- A number in unary, as that many times `a` and one `b`.
abbrev put_number : ℕ → String → String
put_number zero s = String.◌∷◌ (char 98 tt) s
put_number (suc n) s = String.◌∷◌ (char 97 tt) (put_number n s)

abbrev pub encode : List ℕ → String
encode [] = String.[]
encode (x ∷ b) = put_number x (encode b)

abbrev and_number : ℕ → Option (List ℕ) → Option (List ℕ)
and_number n none = none
and_number n (some b) = some (n ∷ b)

abbrev count : ℕ → String → Option (List ℕ)
count n String.[] = some []
count n (String.◌∷◌ c s) =
    let more = count (suc n) s in
    let next = and_number n (count 0 s) in if code c == 97 then more else next

abbrev pub decode : String → Option (List ℕ)
decode s = count 0 s

count-put_number :
    (k x : ℕ) (s : String) → count k (put_number x s) ≡ and_number (k + x) (count 0 s)
count-put_number k zero s = ap (λ n. and_number n (count 0 s)) (omega arith)
count-put_number k (suc x) s =
    count-put_number (suc k) x s ∙ ap (λ n. and_number n (count 0 s)) (omega arith)

pub decode-encode : (b : List ℕ) → decode (encode b) ≡ some b
decode-encode [] = refl
decode-encode (x ∷ b) =
    count-put_number 0 x (encode b)
    ∙ ap (λ n. and_number n (count 0 (encode b))) (omega arith)
    ∙ ap (and_number x) (decode-encode b)

pub encode_visible : (x : ℕ) (b : List ℕ) → str_eq (trim (encode (x ∷ b))) "" ≡ false
unfolding trim
encode_visible zero b = not_empty _ _
encode_visible (suc x) b = not_empty _ _
