-- ===== src/Media/Completion.antt =====
-- A media transfer from its start: markMediaTransferAcked of src/storage/mediaTransferStore.ts over
-- any sequence of acknowledgements.
use nkc.Base.{
  ℕ, ◌≤◌, ◌<◌, ◌≡◌, refl, ◌∙◌, ◌↔◌, true, false, ◌||◌, List, [], ◌∷◌, All, String, arith,
}
use nkc.Media.{MediaTransferProgress, complete, fresh_progress, has, ack_chunk}
use nkc.Media.Cursor.{
  is_acked, IsValid, total-ack_chunk, next-le-total, status-ack_chunk, ack_chunk-IsValid,
  ack_chunk_first_missing, is_acked-ack_chunk,
}

-- Acknowledgements one after another.
unfoldable pub ack_each : List ℕ → MediaTransferProgress → MediaTransferProgress
unfolding ack_chunk
ack_each [] p = p
ack_each (chunk ∷ chunks) p = ack_each chunks (ack_chunk chunk p)

is_acked-ack_each :
    (chunks : List ℕ) (p : MediaTransferProgress) (i : ℕ)
    → is_acked (ack_each chunks p) i ≡ (has chunks i || is_acked p i)
unfolding ack_each has
is_acked-ack_each [] p i = refl
is_acked-ack_each (chunk ∷ chunks) p i =
    ground (arith, is_acked-ack_each chunks (ack_chunk chunk p) i, is_acked-ack_chunk chunk p i)

total-ack_each :
    (chunks : List ℕ) (p : MediaTransferProgress)
    → (ack_each chunks p).total_chunks ≡ p.total_chunks
unfolding ack_each
total-ack_each [] p = refl
total-ack_each (chunk ∷ chunks) p =
    total-ack_each chunks (ack_chunk chunk p) ∙ total-ack_chunk chunk p

-- The cursor stands at a missing chunk, within the file, and at its end only of a complete one.
record IsSettled (p : MediaTransferProgress) : Type 0 where
  valid : IsValid p
  within : p.acked_next ≤ p.total_chunks
  done : p.acked_next ≡ p.total_chunks → p.status ≡ complete
  missing : is_acked p p.acked_next ≡ false

ack_chunk-IsSettled :
    (chunk : ℕ) (p : MediaTransferProgress)
    → IsSettled p
    → chunk < p.total_chunks
    → IsSettled (ack_chunk chunk p)
ack_chunk-IsSettled chunk p h inside = record {
  valid = ack_chunk-IsValid chunk p h.valid inside;
  within = omega (arith, total-ack_chunk chunk p, next-le-total chunk p h.valid inside);
  done = λ e. ground (arith, total-ack_chunk chunk p, e, status-ack_chunk chunk p h.valid inside);
  missing = (ack_chunk_first_missing chunk p).0;
}

ack_each-IsSettled :
    (chunks : List ℕ) (p : MediaTransferProgress)
    → IsSettled p
    → All (λ chunk. chunk < p.total_chunks) chunks
    → IsSettled (ack_each chunks p)
unfolding ack_each
ack_each-IsSettled [] p h inside = h
ack_each-IsSettled (chunk ∷ chunks) p h inside =
    ack_each-IsSettled chunks (ack_chunk chunk p) (ack_chunk-IsSettled chunk p h inside.0)
      (rw (total-ack_chunk chunk p) inside.1)

fresh_progress-IsSettled :
    (id conv : String) (total now : ℕ) → 0 < total → IsSettled (fresh_progress id conv total now)
unfolding fresh_progress has
fresh_progress-IsSettled id conv total now some_chunk = record {
  valid = record { below = λ i h. ground arith; at_end = λ h. ground arith };
  within = omega arith;
  done = λ h. absurd (omega arith);
  missing = refl;
}

-- A new transfer of a file with at least one chunk, after acknowledgements of chunks of the file in
-- any order and with any repeats, is complete exactly when each chunk of the file is among those
-- that were acknowledged.
pub complete_iff_every :
    (id conv : String) (total now : ℕ) (chunks : List ℕ)
    → 0 < total
    → All (λ chunk. chunk < total) chunks
    → ((ack_each chunks (fresh_progress id conv total now)).status ≡ complete)
      ↔ ((i : ℕ) → i < total → has chunks i ≡ true)
unfolding fresh_progress has
complete_iff_every id conv total now chunks some_chunk inside =
    let p = fresh_progress id conv total now in
    let q = ack_each chunks p in
    let h =
      ack_each-IsSettled chunks p (fresh_progress-IsSettled id conv total now some_chunk) inside in
    let size : q.total_chunks ≡ total = total-ack_each chunks p in
    (
      λ e i l.
          let full : q.acked_next ≡ q.total_chunks = h.valid.at_end e in
          ground (arith, is_acked-ack_each chunks p i, full, size),
      λ all.
          let n = q.acked_next in
          ground (arith, is_acked-ack_each chunks p n, h.missing, all n, size, h.within, h.done),
    )
