-- ===== src/Tests/Codec.antt =====
-- A codec of JSON into lists of numbers, for the tests of the friend protocol.
use nkc.Base.{
  ℕ, zero, suc, ◌+◌, ◌≤◌, ◌<◌, ◌≡◌, refl, ap, ◌∙◌, Option, none, some, [], ◌∷◌, String, length,
  arith,
}
use nkc.Tests.Texts.{put_text, get_text, get-put_text, length-put_text}
use nkc.Friends.{Bytes, Json, Fields, null, num, text, obj, end, field}

unfoldable mutual
  pub put : Json → Bytes → Bytes
  put null t = 0 ∷ t
  put (num n) t = 1 ∷ n ∷ t
  put (text s) t = 2 ∷ put_text s t
  put (obj fs) t = 3 ∷ put_fields fs t

  pub put_fields : Fields → Bytes → Bytes
  put_fields end t = 0 ∷ t
  put_fields (field k v fs) t = 1 ∷ put_text k (put v (put_fields fs t))

abbrev and_text : Option (String × Bytes) → Option (Json × Bytes)
and_text none = none
and_text (some (s, t)) = some (text s, t)

abbrev and_obj : Option (Fields × Bytes) → Option (Json × Bytes)
and_obj none = none
and_obj (some (fs, t)) = some (obj fs, t)

abbrev and_field : String → Json → Option (Fields × Bytes) → Option (Fields × Bytes)
and_field k v none = none
and_field k v (some (fs, t)) = some (field k v fs, t)

abbrev bind_pair {ℓ κ} :
    {A : Type ℓ} {B : Type κ} → Option (A × Bytes) → (A → Bytes → Option B) → Option B
bind_pair none f = none
bind_pair (some (a, t)) f = f a t

unfoldable mutual
  pub parse : ℕ → Bytes → Option (Json × Bytes)
  parse zero b = none
  parse (suc n) [] = none
  parse (suc n) (zero ∷ t) = some (null, t)
  parse (suc n) (suc zero ∷ []) = none
  parse (suc n) (suc zero ∷ m ∷ t) = some (num m, t)
  parse (suc n) (suc (suc zero) ∷ t) = and_text (get_text t)
  parse (suc n) (suc (suc (suc m)) ∷ t) = and_obj (parse_fields n t)

  pub parse_fields : ℕ → Bytes → Option (Fields × Bytes)
  parse_fields zero b = none
  parse_fields (suc n) [] = none
  parse_fields (suc n) (zero ∷ t) = some (end, t)
  parse_fields (suc n) (suc m ∷ t) =
      bind_pair (get_text t)
        (λ k u. bind_pair (parse n u) (λ v w. and_field k v (parse_fields n w)))

-- How deep a value is.
unfoldable mutual
  depth : Json → ℕ
  depth null = 1
  depth (num n) = 1
  depth (text s) = 1
  depth (obj fs) = suc (depth_of fs)

  depth_of : Fields → ℕ
  depth_of end = 1
  depth_of (field k v fs) = suc (depth v + depth_of fs)

depth_positive : (v : Json) → 0 < depth v
unfolding depth
depth_positive null = omega arith
depth_positive (num n) = omega arith
depth_positive (text s) = omega arith
depth_positive (obj fs) = omega arith

depth_of_positive : (fs : Fields) → 0 < depth_of fs
unfolding depth
depth_of_positive end = omega arith
depth_of_positive (field k v fs) = omega arith

mutual
  unfolding put parse depth

  parse-put : (v : Json) (n : ℕ) (t : Bytes) → depth v ≤ n → parse n (put v t) ≡ some (v, t)
  parse-put v zero t h = absurd (omega (arith, depth_positive v))
  parse-put null (suc n) t h = refl
  parse-put (num m) (suc n) t h = refl
  parse-put (text s) (suc n) t h = ap and_text (get-put_text s t)
  parse-put (obj fs) (suc n) t h = ap and_obj (parse-put_fields fs n t (omega arith))

  parse-put_fields :
      (fs : Fields) (n : ℕ) (t : Bytes)
      → depth_of fs ≤ n
      → parse_fields n (put_fields fs t) ≡ some (fs, t)
  parse-put_fields fs zero t h = absurd (omega (arith, depth_of_positive fs))
  parse-put_fields end (suc n) t h = refl
  parse-put_fields (field k v fs) (suc n) t h =
      let u = put v (put_fields fs t) in
      ap (λ x. bind_pair x (λ k u. bind_pair (parse n u) (λ v w. and_field k v (parse_fields n w))))
        (get-put_text k u)
      ∙ ap (λ x. bind_pair x (λ v w. and_field k v (parse_fields n w)))
          (parse-put v n (put_fields fs t) (omega arith))
      ∙ ap (and_field k v) (parse-put_fields fs n t (omega arith))

mutual
  unfolding put depth

  depth-put : (v : Json) (t : Bytes) → depth v + length t ≤ length (put v t)
  depth-put null t = omega arith
  depth-put (num n) t = omega arith
  depth-put (text s) t = omega (arith, length-put_text s t)
  depth-put (obj fs) t = omega (arith, depth-put_fields fs t)

  depth-put_fields : (fs : Fields) (t : Bytes) → depth_of fs + length t ≤ length (put_fields fs t)
  depth-put_fields end t = omega arith
  depth-put_fields (field k v fs) t =
      let u = put_fields fs t in
      omega (arith, length-put_text k (put v u), depth-put v u, depth-put_fields fs t)

abbrev pub first_part {ℓ} : {A : Type ℓ} → Option (A × Bytes) → Option A
first_part none = none
first_part (some (a, t)) = some a

abbrev pub json_bytes : Json → Bytes
json_bytes v = put v []

abbrev pub parse_json : Bytes → Option Json
parse_json b = first_part (parse (length b) b)

pub parse-json_bytes : (v : Json) → parse_json (json_bytes v) ≡ some v
parse-json_bytes v =
    ap first_part (parse-put v (length (put v [])) [] (omega (arith, depth-put v [])))

pub length-json_bytes : (v : Json) → 0 < length (json_bytes v)
length-json_bytes v = omega (arith, depth-put v [], depth_positive v)
