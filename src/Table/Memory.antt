-- ===== src/Table/Memory.antt =====
-- A table held in a list: the laws of `Table` can be met.
use mathlib.Core.Option
use nkc.Base.{
  ◌≡◌, refl, subst, inl, inr, Bool, true, false, Option, none, some, List, [], ◌∷◌, String, str_eq,
  eq_iff, if◌then◌else◌, All, All-map, Elem, contains, arith, Bool-cases,
}
use nkc.Table.{Table}

module _ {R : Type 0} (key : R → String) where
  -- The newest row under a key stands first.
  unfoldable pub get : List R → String → Option R
  get [] k = none
  get (r ∷ rs) k = if str_eq (key r) k then some r else get rs k

  unfoldable pub put : List R → R → List R
  put rs r = r ∷ rs

  unfoldable pub delete : List R → String → List R
  delete [] k = []
  delete (r ∷ rs) k = let rest = delete rs k in if str_eq (key r) k then rest else r ∷ rest

  unfoldable pub bulk_delete : List R → List String → List R
  bulk_delete [] ks = []
  bulk_delete (r ∷ rs) ks =
      let rest = bulk_delete rs ks in if contains ks (key r) then rest else r ∷ rest

  query_from : List String → List R → (R → Bool) → List R
  query_from seen [] p = []
  query_from seen (r ∷ rs) p =
      let rest = query_from (key r ∷ seen) rs p in
      if contains seen (key r) then rest else if p r then r ∷ rest else rest

  unfoldable pub query : List R → (R → Bool) → List R
  unfolding query_from
  query rs p = query_from [] rs p

  unfoldable pub update : List R → String → (R → R) → List R
  unfolding get
  update rs k f = elim (get rs k) [ none ↦ rs | some r ↦ f r ∷ rs ]

  pub get-put :
      (s : List R) (r : R) (k : String)
      → get (put s r) k ≡ (if str_eq (key r) k then some r else get s k)
  unfolding get put
  get-put s r k = refl

  pub get-delete :
      (s : List R) (j k : String) → get (delete s j) k ≡ (if str_eq j k then none else get s k)
  unfolding get delete
  get-delete [] j k = ground arith
  get-delete (r ∷ rs) j k =
      ground (arith, get-delete rs j k, eq_iff (key r) j, eq_iff (key r) k, eq_iff j k)

  contains-eq : (ks : List String) (j k : String) → j ≡ k → contains ks j ≡ contains ks k
  contains-eq ks j k e = subst (λ m. contains ks j ≡ contains ks m) e refl

  pub get-bulk_delete :
      (s : List R) (ks : List String) (k : String)
      → get (bulk_delete s ks) k ≡ (if contains ks k then none else get s k)
  unfolding get bulk_delete
  get-bulk_delete [] ks k = ground arith
  get-bulk_delete (r ∷ rs) ks k =
      ground (arith, get-bulk_delete rs ks k, eq_iff (key r) k, contains-eq ks (key r) k)

  pub key-get : (s : List R) (k : String) (r : R) → get s k ≡ some r → key r ≡ k
  unfolding get
  key-get [] k r h = ground arith
  key-get (x ∷ xs) k r h = ground (arith, key-get xs k r, eq_iff (key x) k)

  pub get-update :
      (s : List R) (j : String) (f : R → R) (k : String)
      → ((r : R) → key (f r) ≡ key r)
      → get (update s j f) k ≡ (if str_eq j k then Option.map f (get s k) else get s k)
  unfolding get update
  get-update s j f k same = go (get s j) refl
    where
      go :
          (o : Option R)
          → get s j ≡ o
          → get (elim o [ none ↦ s | some r ↦ f r ∷ s ]) k
            ≡ (if str_eq j k then Option.map f (get s k) else get s k)
      go none e = elim (Bool-cases (str_eq j k)) [
        | inl h ↦ let same_key : j ≡ k = (eq_iff j k).0 h in rw (h, ← same_key, e) refl
        | inr h ↦ rw h refl
      ]
      go (some r) e = elim (Bool-cases (str_eq j k)) [
        | inl h ↦ ground (arith, eq_iff j k, same r, key-get s j r e, eq_iff (key (f r)) k, e)
        | inr h ↦ ground (arith, eq_iff j k, same r, key-get s j r e, eq_iff (key (f r)) k)
      ]

  abbrev Fresh : List String → (R → Bool) → List R → R → Type 0
  Fresh seen p rs r = (contains seen (key r) ≡ false) × (p r ≡ true) × (get rs (key r) ≡ some r)

  query_from_sound :
      (seen : List String) (rs : List R) (p : R → Bool)
      → All (Fresh seen p rs) (query_from seen rs p)
  unfolding query_from get
  query_from_sound seen [] p = tt
  query_from_sound seen (x ∷ xs) p =
      let rest : All (Fresh seen p (x ∷ xs)) (query_from (key x ∷ seen) xs p) =
        All-map (Fresh (key x ∷ seen) p xs) (Fresh seen p (x ∷ xs))
          (λ r h. (ground arith, h.1, ground (arith, eq_iff (key x) (key r))))
          (query_from (key x ∷ seen) xs p) (query_from_sound (key x ∷ seen) xs p) in
      ground (arith, rest, eq_iff (key x) (key x))

  pub query_sound :
      (s : List R) (p : R → Bool) → All (λ r. (p r ≡ true) × (get s (key r) ≡ some r)) (query s p)
  unfolding query
  query_sound s p =
      All-map (Fresh [] p s) (λ r. (p r ≡ true) × (get s (key r) ≡ some r)) (λ r h. (h.1, h.2))
        (query_from [] s p) (query_from_sound [] s p)

  query_from_complete :
      (seen : List String) (rs : List R) (p : R → Bool) (r : R)
      → get rs (key r) ≡ some r
      → p r ≡ true
      → contains seen (key r) ≡ false
      → Elem r (query_from seen rs p)
  unfolding query_from get
  query_from_complete seen [] p r h ok new = ground arith
  query_from_complete seen (x ∷ xs) p r h ok new = elim (Bool-cases (str_eq (key x) (key r))) [
    | inl e ↦ ground (arith, contains-eq seen (key x) (key r), eq_iff (key x) (key r))
    | inr e ↦
        let later = query_from_complete (key x ∷ seen) xs p r (ground arith) ok (ground arith) in
        ground (arith, later)
  ]

  pub query_complete :
      (s : List R) (p : R → Bool) (r : R) → get s (key r) ≡ some r → p r ≡ true → Elem r (query s p)
  unfolding query
  query_complete s p r h ok = query_from_complete [] s p r h ok refl

  abbrev pub memory : Table R key
  memory = record {
    Store = List R;
    get = get;
    put = put;
    delete = delete;
    bulk_delete = bulk_delete;
    query = query;
    update = update;
    get-put = get-put;
    get-delete = get-delete;
    get-bulk_delete = get-bulk_delete;
    get-update = get-update;
    key-get = key-get;
    query_sound = query_sound;
    query_complete = query_complete;
  }
