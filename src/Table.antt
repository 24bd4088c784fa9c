-- ===== src/Table.antt =====
-- A table of src/db/schema.ts. The tables are those of the package Dexie, which is not part of the
-- repository: what the program relies on is stated here as a record of operations and laws.
pub mod Memory
pub mod Laws
use nkc.Base.{
  ℕ, ◌≡◌, Bool, true, Option, none, some, List, String, str_eq, if◌then◌else◌, All, Elem, contains,
}
use mathlib.Core.Option

-- Rows of type `R` under the primary key `key`.
pub record Table (R : Type 0) (key : R → String) : Type 1 where
  pub Store : Type 0
  pub get : Store → String → Option R
  pub put : Store → R → Store
  pub delete : Store → String → Store
  pub bulk_delete : Store → List String → Store
  -- The rows that satisfy a test, in an order that the laws leave open.
  pub query : Store → (R → Bool) → List R
  -- A patch of the row under a key, where there is one.
  pub update : Store → String → (R → R) → Store
  pub get-put :
      (s : Store) (r : R) (k : String)
      → get (put s r) k ≡ (if str_eq (key r) k then some r else get s k)
  pub get-delete :
      (s : Store) (j k : String) → get (delete s j) k ≡ (if str_eq j k then none else get s k)
  pub get-bulk_delete :
      (s : Store) (ks : List String) (k : String)
      → get (bulk_delete s ks) k ≡ (if contains ks k then none else get s k)
  pub get-update :
      (s : Store) (j : String) (f : R → R) (k : String)
      → ((r : R) → key (f r) ≡ key r)
      → get (update s j f) k ≡ (if str_eq j k then Option.map f (get s k) else get s k)
  pub key-get : (s : Store) (k : String) (r : R) → get s k ≡ some r → key r ≡ k
  pub query_sound :
      (s : Store) (p : R → Bool) → All (λ r. (p r ≡ true) × (get s (key r) ≡ some r)) (query s p)
  pub query_complete :
      (s : Store) (p : R → Bool) (r : R) → get s (key r) ≡ some r → p r ≡ true → Elem r (query s p)
