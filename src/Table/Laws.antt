-- ===== src/Table/Laws.antt =====
-- What follows from the laws of a table: deleting the rows that a query finds.
use nkc.Base.{
  ◌≡◌, refl, sym, ◌∙◌, subst, inl, inr, Bool, true, Option, none, some, List, [], ◌∷◌, map, String,
  str_eq, eq_iff, eq_refl, if◌then◌else◌, All-elem, Elem, contains, arith, Bool-cases,
}
use nkc.Table.{Table}

-- A row that satisfies the test is gone, any other is left.
abbrev pub keep_unless {ℓ} : {R : Type ℓ} → (R → Bool) → Option R → Option R
keep_unless p none = none
keep_unless p (some r) = if p r then none else some r

module _ {R : Type 0} (key : R → String) where
  contains-map_key : (rs : List R) (r : R) → Elem r rs → contains (map key rs) (key r) ≡ true
  contains-map_key [] r m = absurd m
  contains-map_key (x ∷ xs) r (inl e) = rw (e, eq_refl (key x))
  contains-map_key (x ∷ xs) r (inr m) = ground (arith, contains-map_key xs r m)

  contains-find :
      (rs : List R) (k : String)
      → contains (map key rs) k ≡ true
      → (r : R) × Elem r rs × (key r ≡ k)
  contains-find [] k h = cc
  contains-find (x ∷ xs) k h = elim (Bool-cases (str_eq (key x) k)) [
    | inl e ↦ (x, inl refl, (eq_iff (key x) k).0 e)
    | inr e ↦ let (r, m, same) = contains-find xs k (ground arith) in (r, inr m, same)
  ]

module _ {R : Type 0} {key : R → String} where
  module _ (T : Table R key) where
    open T use {Store, get, bulk_delete, query}

    found :
        (s : Store) (p : R → Bool) (k : String)
        → contains (map key (query s p)) k ≡ true
        → (r : R) × (p r ≡ true) × (get s k ≡ some r)
    found s p k h =
        let (r, m, same) = contains-find key (query s p) k h in
        let ok =
          All-elem (λ r. (p r ≡ true) × (get s (key r) ≡ some r)) r (query s p) (T.query_sound s p)
            m in
        (r, ok.0, subst (λ j. get s j ≡ some r) same ok.1)

    -- The keys of the rows that a query finds.
    pub contains-map_key-query :
        (s : Store) (p : R → Bool) (k : String) (r : R)
        → get s k ≡ some r
        → contains (map key (query s p)) k ≡ p r
    contains-map_key-query s p k r e = elim (Bool-cases (contains (map key (query s p)) k)) [
      | inl h ↦
          let (r', ok, stored) = found s p k h in
          let same : r' ≡ r = cc in rw h (sym (subst (λ x. p x ≡ true) same ok))
      | inr h ↦ elim (Bool-cases (p r)) [
        | inl ok ↦
            let same = T.key-get s k r e in
            let stored : get s (key r) ≡ some r = rw same e in
            let there = contains-map_key key (query s p) r (T.query_complete s p r stored ok) in
            let there' = subst (λ j. contains (map key (query s p)) j ≡ true) same there in cc
        | inr bad ↦ rw (h, bad)
      ]
    ]

    pub get-bulk_delete-query :
        (s : Store) (p : R → Bool) (k : String)
        → get (bulk_delete s (map key (query s p))) k ≡ keep_unless p (get s k)
    get-bulk_delete-query s p k =
        T.get-bulk_delete s (map key (query s p)) k ∙ at_key (get s k) refl
      where
        at_key :
            (o : Option R)
            → get s k ≡ o
            → (if contains (map key (query s p)) k then none else get s k) ≡ keep_unless p o
        at_key none e = rw e (ground arith)
        at_key (some r) e = rw (e, contains-map_key-query s p k r e) refl
