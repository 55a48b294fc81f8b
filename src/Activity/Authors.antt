-- ===== src/Activity/Authors.antt =====
-- The author of a message, over any sequence of messages, reactions, settings and resets.
use chat_pulse.Prelude.{
  ℕ, ◌≡◌, refl, ◌∙◌, ap, String, Bool, true, false, not, ◌&&◌, Option, none, some, List, Table2,
  ◌==◌, if◌then◌else◌, arith, Bool-cases, inl, inr,
}
use chat_pulse.Activity.Recount.{
  write_reaction_count, recount_by, recount_to, recount_in, record_reaction_count,
}
use chat_pulse.Activity.{
  ChatGroup, GroupMember, MessageAuthor, Store, Zone, is_open, author_or_new, with_author,
  write_message, write_reaction, react_by, react_to, react_in, record_reaction,
}
use chat_pulse.Activity.Writes.{Write, write_all, resets_only, either, Keeps, write_all-Keeps}

with_author_stays :
    (t : Table2 MessageAuthor) (c : ℕ) (o : Option ℕ) (user at chat id : ℕ) (a : MessageAuthor)
    → t chat id ≡ some a
    → with_author t c o user at chat id ≡ some a
with_author_stays t c none user at chat id a h = h
with_author_stays t c (some m) user at chat id a h = elim (Bool-cases ((c == chat) && (m == id))) [
  | inl same ↦
      let (ec, em) = both c chat m id same in
      rw same (ap (λ o. some (author_or_new o user at)) (ap2 ec em ∙ h))
  | inr other ↦ rw other h
]
  where
    both : (x y u v : ℕ) → ((x == y) && (u == v)) ≡ true → (x ≡ y) × (u ≡ v)
    both x y u v e = (ground (arith, e), ground (arith, e))

    ap2 : {x y u v : ℕ} → x ≡ y → u ≡ v → t x u ≡ t y v
    ap2 p q = cc (p, q)

abbrev pub is_other : ℕ → ℕ → Bool
is_other chat c = not (c == chat)

author-Keeps :
    (z : Zone) (chat id : ℕ) (a : MessageAuthor)
    → Keeps z (is_other chat) (λ s. s.authors chat id ≡ some a)
unfolding write_message write_reaction write_reaction_count
author-Keeps z chat id a = record {
  by_message =
      λ s c g user act at o h. with_author_stays s.authors c o user.telegram_id at chat id a h;
  by_reaction = λ s c user m date old new e h. h;
  by_counts = λ s c i user m date new e h. h;
  by_reset = λ s c other h. kept c (chat == c) refl other (s.authors chat id) h;
  by_settings = λ s c g h. h;
}
  where
    kept :
        (c : ℕ) (b : Bool)
        → (chat == c) ≡ b
        → is_other chat c ≡ true
        → (o : Option MessageAuthor) → o ≡ some a
        → (if b then none else o) ≡ some a
    kept c true e other o h = absurd (ground (arith, e, other))
    kept c false e other o h = h

-- A reaction to a message touches no member but its author.
module _ (z : Zone) (s : Store) (chat id : ℕ) (a : MessageAuthor)
    (known : s.authors chat id ≡ some a) (c u : ℕ)
    (other : ((chat == c) && (a.telegram_user_id == u)) ≡ false) where
  react_by-others :
      (g : ChatGroup) (o : Option GroupMember) (old new : List String) (at : ℕ)
      → (react_by z s g chat a.telegram_user_id o old new at).0.members c u ≡ s.members c u
  unfolding react_by write_reaction
  react_by-others g none old new at = refl
  react_by-others g (some m) old new at = rw other refl

  recount_by-others :
      (g : ChatGroup) (o : Option GroupMember) (new : List (String × ℕ)) (at : ℕ)
      → (recount_by z s g chat id a.telegram_user_id o new at).0.members c u ≡ s.members c u
  unfolding recount_by write_reaction_count
  recount_by-others g none new at = refl
  recount_by-others g (some m) new at = rw other refl

  react_in-others :
      (o : Option ChatGroup) (old new : List String) (at : ℕ)
      → (react_in z s o chat id old new at).0.members c u ≡ s.members c u
  unfolding react_in react_to
  react_in-others none old new at = refl
  react_in-others (some g) old new at =
      either z s (λ s'. s'.members c u ≡ s.members c u) refl (is_open g && g.track_reactions) _
        (rw known (react_by-others g (s.members chat a.telegram_user_id) old new at))

  recount_in-others :
      (o : Option ChatGroup) (new : List (String × ℕ)) (at : ℕ)
      → (recount_in z s o chat id new at).0.members c u ≡ s.members c u
  unfolding recount_in recount_to
  recount_in-others none new at = refl
  recount_in-others (some g) new at =
      either z s (λ s'. s'.members c u ≡ s.members c u) refl (is_open g && g.track_reactions) _
        (rw known (recount_by-others g (s.members chat a.telegram_user_id) new at))

-- Once a message has an author, no message, reaction or setting gives it another, as long as the
-- statistics of its chat are not reset; and a reaction to it, alone or as a count, then touches no
-- member but that author.
pub author_stays :
    (z : Zone) (s : Store) (l : List Write) (chat id : ℕ) (a : MessageAuthor)
    (old new : List String) (new_counts : List (String × ℕ)) (at c u : ℕ)
    → s.authors chat id ≡ some a
    → resets_only (is_other chat) l ≡ true
    → ((chat == c) && (a.telegram_user_id == u)) ≡ false
    → let later = write_all z s l in
      (later.authors chat id ≡ some a)
      × ((record_reaction z later chat id old new at).0.members c u ≡ later.members c u)
      × ((record_reaction_count z later chat id new_counts at).0.members c u ≡ later.members c u)
unfolding record_reaction record_reaction_count
author_stays z s l chat id a old new new_counts at c u h spared other =
    let later = write_all z s l in
    let known : later.authors chat id ≡ some a =
      write_all-Keeps z (is_other chat) (λ s. s.authors chat id ≡ some a) s l
        (author-Keeps z chat id a) spared h in
    (
      known,
      react_in-others z later chat id a known c u other (later.groups chat) old new at,
      recount_in-others z later chat id a known c u other (later.groups chat) new_counts at,
    )
