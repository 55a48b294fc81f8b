-- ===== src/Xp/Reactions.antt =====
-- The reaction total of a message.
use chat_pulse.Prelude.{ℕ, ◌≡◌, refl, true, false, ◌&&◌, none, some, List, [], ◌∷◌, ◌==◌, arith}
use chat_pulse.Prelude.Int.{ℤ, pos, pos_part, ◌+ℤ◌}
use chat_pulse.Xp.Store.{MessageAuthor, Store, author_of, set_author, is_message}
use chat_pulse.Xp.Message.{total_from, update_message_reaction_total}
use chat_pulse.Xp.Retry.{author_of-set_author, author_of-is_message}

set_author-other :
    (c m c' m' : ℕ) (row : MessageAuthor) (l : List MessageAuthor)
    → is_message c m row ≡ true
    → ((c == c') && (m == m')) ≡ false
    → author_of c' m' (set_author c m row l) ≡ author_of c' m' l
unfolding author_of set_author
set_author-other c m c' m' row [] mine other = refl
set_author-other c m c' m' row (a ∷ l) mine other =
    ground (arith, set_author-other c m c' m' row l mine other)

-- Where a message is known, its row gets the total that is given, or the sum of the old count and
-- a change, and never less than 0; the old count and the new one are returned, the rest of the row
-- stays as it was, and so does the row of every other message.
pub reaction_total_law :
    (s : Store) (c m c' m' : ℕ) (a : MessageAuthor) (change given : ℤ)
    → author_of c m s.authors ≡ some a
    → ((c == c') && (m == m')) ≡ false
    → let (by_total, counts) = update_message_reaction_total s c m (some change) (some given) in
      let (by_change, sums) = update_message_reaction_total s c m (some change) none in
      (counts ≡ (a.reactions_count, pos_part given))
      × (author_of c m by_total.authors ≡ some (record a { reactions_count = pos_part given }))
      × (sums ≡ (a.reactions_count, pos_part (pos a.reactions_count +ℤ change)))
      × (author_of c m by_change.authors
          ≡ some (record a { reactions_count = pos_part (pos a.reactions_count +ℤ change) }))
      × (author_of c' m' by_total.authors ≡ author_of c' m' s.authors)
      × (author_of c' m' by_change.authors ≡ author_of c' m' s.authors)
unfolding update_message_reaction_total
reaction_total_law s c m c' m' a change given e other =
    let mine = author_of-is_message c m s.authors a e in
    let row : ℕ → MessageAuthor = λ n. record a { reactions_count = n } in
    let sum : ℕ = pos_part (pos a.reactions_count +ℤ change) in
    (
      rw (e, total_from),
      rw (e, total_from, author_of-set_author c m (row (pos_part given)) s.authors mine, e),
      rw (e, total_from),
      rw (e, total_from, author_of-set_author c m (row sum) s.authors mine, e),
      rw (e, total_from, set_author-other c m c' m' (row (pos_part given)) s.authors mine other),
      rw (e, total_from, set_author-other c m c' m' (row sum) s.authors mine other),
    )
