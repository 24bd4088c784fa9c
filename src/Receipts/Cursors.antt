-- ===== src/Receipts/Cursors.antt =====
-- A read cursor only moves forward.
use nkc.Base.{
  ℕ, ◌≤◌, ◌≡◌, ◌≢◌, refl, sym, ap, ◌∙◌, Option, none, some, String, str_eq, eq_iff, eq_refl,
  if◌then◌else◌, max, arith, Option-cases, inl, inr,
}
use Prim.Native.Char.{code}
use text.Mathlib.TextLemmas.{cons-append}
use nkc.Table.{Table}
use nkc.Receipts.{
  ReceiptRecord, receipt_key, CursorUpdate, cursor_id, stored_cursor, cursor_row, read_row,
  put_anchor, put_cursor, put_read_cursor, ◌<>◌,
}

-- The code of the fifth character.
fifth : String → Option ℕ
fifth (String.◌∷◌ a (String.◌∷◌ b (String.◌∷◌ c (String.◌∷◌ d (String.◌∷◌ e s))))) = some (code e)
fifth _ = none

fifth-read : (x : String) → fifth ("read:" <> x) ≡ fifth "read:"
unfolding fifth
fifth-read x = rw (cons-append, cons-append, cons-append, cons-append, cons-append)

fifth-cursor : (x : String) → fifth ("read_cursor:" <> x) ≡ fifth "read_"
unfolding fifth
fifth-cursor x = rw (cons-append, cons-append, cons-append, cons-append, cons-append)

fifth_differ : fifth "read:" ≢ fifth "read_"
unfolding fifth
fifth_differ e = ground arith

-- The row of a read receipt and the row of a cursor never share a key.
read-ne-cursor : (x y : String) → ("read:" <> x) ≢ ("read_cursor:" <> y)
read-ne-cursor x y e = fifth_differ (sym (fifth-read x) ∙ ap fifth e ∙ fifth-cursor y)

module _ (T : Table ReceiptRecord receipt_key) where
  open T use {Store, get, put}

  get-put_anchor :
      (u : CursorUpdate) (at : ℕ) (s : Store) (y : String)
      → get (put_anchor T u at s) ("read_cursor:" <> y) ≡ get s ("read_cursor:" <> y)
  unfolding put_anchor read_row
  get-put_anchor u at s y = go u.anchor_msg_id
    where
      go :
          (o : Option String)
          → get
              (elim o [
                | none ↦ s
                | some anchor ↦ if str_eq anchor "" then s else put s (read_row u anchor at)
              ])
              ("read_cursor:" <> y)
            ≡ get s ("read_cursor:" <> y)
      go none = refl
      go (some anchor) = ground (
        arith,
        T.get-put s (read_row u anchor at) ("read_cursor:" <> y),
        eq_iff (read_row u anchor at).id ("read_cursor:" <> y),
        read-ne-cursor (anchor <> ":" <> u.actor_id) y,
      )

  abbrev pub cursor_of : Store → String → String → ℕ
  cursor_of s conv actor = stored_cursor (get s (cursor_id conv actor))

  -- After an update with a conversation, an actor and a time, the actor's cursor is the later of
  -- the stored time and the new one.
  pub put_read_cursor-max :
      (now : ℕ) (u : CursorUpdate) (at : ℕ) (s : Store)
      → u.cursor_ts ≡ some at
      → u.conv_id ≢ ""
      → u.actor_id ≢ ""
      → cursor_of (put_read_cursor T now u s) u.conv_id u.actor_id
        ≡ max (cursor_of s u.conv_id u.actor_id) at
  unfolding put_read_cursor put_cursor cursor_row
  put_read_cursor-max now u at s e c a =
      let key = cursor_id u.conv_id u.actor_id in
      let next = max (cursor_of s u.conv_id u.actor_id) at in
      rw (e, put_read_cursor)
        (ground (
          arith,
          eq_iff u.conv_id "",
          eq_iff u.actor_id "",
          get-put_anchor u next (put s (cursor_row now u next)) (u.conv_id <> ":" <> u.actor_id),
          T.get-put s (cursor_row now u next) key,
          eq_refl key,
        ))

  put_cursor_mono :
      (now : ℕ) (u : CursorUpdate) (at : ℕ) (s : Store) (conv actor : String)
      → cursor_of s conv actor ≤ cursor_of (put_cursor T now u at s) conv actor
  unfolding put_cursor cursor_row
  put_cursor_mono now u at s conv actor =
      let next = max (cursor_of s u.conv_id u.actor_id) at in
      ground (
        arith,
        get-put_anchor u next (put s (cursor_row now u next)) (conv <> ":" <> actor),
        T.get-put s (cursor_row now u next) (cursor_id conv actor),
        eq_iff (cursor_id u.conv_id u.actor_id) (cursor_id conv actor),
        ap (λ k. stored_cursor (get s k)) {x = cursor_id u.conv_id u.actor_id}
            {y = cursor_id conv actor},
      )

  -- No update moves the cursor of any actor in any conversation back.
  pub put_read_cursor_mono :
      (now : ℕ) (u : CursorUpdate) (s : Store) (conv actor : String)
      → cursor_of s conv actor ≤ cursor_of (put_read_cursor T now u s) conv actor
  unfolding put_read_cursor
  put_read_cursor_mono now u s conv actor = elim (Option-cases u.cursor_ts) [
    | inl e ↦ rw (e, put_read_cursor) (omega arith)
    | inr (at, e) ↦ rw (e, put_read_cursor) (ground (arith, put_cursor_mono now u at s conv actor))
  ]
