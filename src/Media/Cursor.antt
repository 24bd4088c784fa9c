-- ===== src/Media/Cursor.antt =====
-- The cursor of acknowledged chunks refines the set of acknowledged chunks.
use nkc.Base.{
  ℕ, zero, suc, ◌≤◌, ◌<◌, ◌≡◌, refl, ◌∙◌, inl, inr, Bool, true, false, subst, ◌||◌, List, [], ◌∷◌,
  ltb, leb, ◌==◌, if◌then◌else◌, length, Bool-cases, arith,
}
use nkc.Base.Sort
use nkc.Media.{
  MediaTransferProgress, complete, has, add, remove, to_set, pending_with, advance, ack_chunk,
}

-- The abstract view: whether a chunk has been acknowledged.
abbrev pub is_acked : MediaTransferProgress → ℕ → Bool
is_acked p i = ltb i p.acked_next || has p.acked_out_of_order i

has-add : (xs : List ℕ) (i j : ℕ) → has (add xs i) j ≡ (i == j || has xs j)
unfolding add has
has-add xs i j = elim (Bool-cases (has xs i)) [ inl h ↦ rw h (same (i == j) refl h) | inr h ↦ rw h ]
  where
    same : (b : Bool) → (i == j) ≡ b → has xs i ≡ true → has xs j ≡ (b || has xs j)
    same true e h = let eq : i ≡ j = ground arith in ground (arith, eq)
    same false e h = refl

has-remove : (xs : List ℕ) (i j : ℕ) → has (remove xs i) j ≡ (if i == j then false else has xs j)
unfolding remove has
has-remove [] i j = ground arith
has-remove (x ∷ xs) i j = ground (arith, has-remove xs i j)

has-to_set : (xs : List ℕ) (j : ℕ) → has (to_set xs) j ≡ has xs j
unfolding to_set has
has-to_set [] j = refl
has-to_set (x ∷ xs) j = rw (has-add (to_set xs) x j, has-to_set xs j)

has-insert : (x : ℕ) (ys : List ℕ) (j : ℕ) → has (Sort.insert leb x ys) j ≡ (x == j || has ys j)
unfolding has Sort.insert
has-insert x [] j = refl
has-insert x (y ∷ ys) j = ground (arith, has-insert x ys j)

has-sort : (xs : List ℕ) (j : ℕ) → has (Sort.sort leb xs) j ≡ has xs j
unfolding has Sort.sort
has-sort [] j = refl
has-sort (x ∷ xs) j = rw (has-insert x (Sort.sort leb xs) j, has-sort xs j)

length-remove-le : (xs : List ℕ) (i : ℕ) → length (remove xs i) ≤ length xs
unfolding remove
length-remove-le [] i = omega arith
length-remove-le (x ∷ xs) i = ground (arith, length-remove-le xs i)

length-remove-lt : (xs : List ℕ) (i : ℕ) → has xs i ≡ true → length (remove xs i) < length xs
unfolding remove has
length-remove-lt [] i h = cc
length-remove-lt (x ∷ xs) i h = ground (arith, length-remove-lt xs i, length-remove-le xs i)

-- The loop moves no chunk in or out of the view.
advance-view :
    (fuel next : ℕ) (pending : List ℕ) (i : ℕ)
    → let r = advance fuel next pending in (ltb i r.0 || has r.1 i) ≡ (ltb i next || has pending i)
unfolding advance
advance-view zero next pending i = refl
advance-view (suc fuel) next pending i = elim (Bool-cases (has pending next)) [
  | inl h ↦
      rw (h, advance)
        (advance-view fuel (suc next) (remove pending next) i
          ∙ ground (arith, has-remove pending next i, h, hit h))
  | inr h ↦ rw (h, advance)
]
  where
    hit : has pending next ≡ true → next ≡ i → has pending i ≡ true
    hit h e = subst (λ k. has pending k ≡ true) e h

-- With fuel for every member the loop ends by its own test.
advance_done :
    (fuel next : ℕ) (pending : List ℕ)
    → length pending < fuel
    → let r = advance fuel next pending in has r.1 r.0 ≡ false
unfolding advance
advance_done zero next pending h = absurd (omega arith)
advance_done (suc fuel) next pending h = elim (Bool-cases (has pending next)) [
  | inl e ↦
      rw (e, advance)
        (advance_done fuel (suc next) (remove pending next)
          (omega (arith, length-remove-lt pending next e)))
  | inr e ↦ rw (e, advance) e
]

module _ (chunk : ℕ) (p : MediaTransferProgress) where
  cursor_view :
      (i : ℕ)
      → is_acked (ack_chunk chunk p) i ≡ (ltb i p.acked_next || has (pending_with chunk p) i)
  unfolding ack_chunk
  cursor_view i =
      let w = pending_with chunk p in
      rw (has-sort (advance (suc (length w)) p.acked_next w).1 i)
        (advance-view (suc (length w)) p.acked_next w i)

  -- An acknowledgement adds its chunk to the set of acknowledged chunks and no other.
  pub is_acked-ack_chunk : (i : ℕ) → is_acked (ack_chunk chunk p) i ≡ (chunk == i || is_acked p i)
  unfolding pending_with
  is_acked-ack_chunk i =
      cursor_view i
      ∙ ground
          (arith, has-add (to_set p.acked_out_of_order) chunk i, has-to_set p.acked_out_of_order i)

  ack_chunk_done : has (ack_chunk chunk p).acked_out_of_order (ack_chunk chunk p).acked_next ≡ false
  unfolding ack_chunk
  ack_chunk_done =
      let w = pending_with chunk p in
      let r = advance (suc (length w)) p.acked_next w in
      rw (has-sort r.1 r.0) (advance_done (suc (length w)) p.acked_next w (omega arith))

  -- The cursor stands at the first chunk that is not acknowledged.
  pub ack_chunk_first_missing :
      (is_acked (ack_chunk chunk p) (ack_chunk chunk p).acked_next ≡ false)
      × ((i : ℕ) → i < (ack_chunk chunk p).acked_next → is_acked (ack_chunk chunk p) i ≡ true)
  ack_chunk_first_missing = (ground (arith, ack_chunk_done), λ i h. ground arith)

-- Only chunks of the file are acknowledged, and a complete transfer has its cursor at the end.
pub record IsValid (p : MediaTransferProgress) : Type 0 where
  pub below : (i : ℕ) → is_acked p i ≡ true → i < p.total_chunks
  pub at_end : p.status ≡ complete → p.acked_next ≡ p.total_chunks

pub total-ack_chunk :
    (chunk : ℕ) (p : MediaTransferProgress) → (ack_chunk chunk p).total_chunks ≡ p.total_chunks
unfolding ack_chunk
total-ack_chunk chunk p = refl

module _ (chunk : ℕ) (p : MediaTransferProgress) (v : IsValid p)
    (inside : chunk < p.total_chunks) where
  below-ack_chunk : (i : ℕ) → is_acked (ack_chunk chunk p) i ≡ true → i < p.total_chunks
  below-ack_chunk i h = ground (arith, is_acked-ack_chunk chunk p i, v.below i)

  -- The cursor never passes the end of the file.
  pub next-le-total : (ack_chunk chunk p).acked_next ≤ p.total_chunks
  next-le-total = bound (ack_chunk chunk p).acked_next refl
    where
      bound : (n : ℕ) → (ack_chunk chunk p).acked_next ≡ n → n ≤ p.total_chunks
      bound zero e = omega arith
      bound (suc n) e = below-ack_chunk n ((ack_chunk_first_missing chunk p).1 n (omega arith))

  -- Nor does it go back.
  next_mono : p.acked_next ≤ (ack_chunk chunk p).acked_next
  next_mono =
      let n = (ack_chunk chunk p).acked_next in
      ground (arith, is_acked-ack_chunk chunk p n, (ack_chunk_first_missing chunk p).0)

  pub status-ack_chunk :
      (ack_chunk chunk p).status
      ≡ (if (ack_chunk chunk p).acked_next == p.total_chunks then complete else p.status)
  unfolding ack_chunk
  status-ack_chunk = refl

  -- The acknowledgement of a chunk of the file keeps the record valid: only chunks of the file are
  -- acknowledged, and a complete transfer has its cursor at the end.
  pub ack_chunk-IsValid : IsValid (ack_chunk chunk p)
  ack_chunk-IsValid = record {
    below = λ i h. omega (arith, total-ack_chunk chunk p, below-ack_chunk i h);
    at_end = λ e.
        ground
          (arith, total-ack_chunk chunk p, status-ack_chunk, next-le-total, next_mono, v.at_end);
  }
