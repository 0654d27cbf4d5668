-- ===== src/Storage/Query/Recent.antt =====
-- `GetRecentChats` against a description that has neither groups nor a join.
use kha_app.Prelude.{
  ◌≡◌, ◌≤ℤ◌, refl, ap, ◌∙◌, Bool, true, false, ◌&&◌, ◌||◌, not, Option, none, some, List, [], ◌∷◌,
  arith, ℤ, leb_ℤ, eqb_ℤ, max_ℤ, Text, same_text, same_text_iff, same_text_refl, select, All,
  if◌then◌else◌,
}
use kha_app.Prelude.Result.{ok}
use kha_app.Storage.Message.{Row}
use kha_app.Storage.Table.{Table}
use kha_app.Storage.Query.{
  Engine, Group, add_group, latest, join_row, join, scan_messages, get_recent_chats,
}

-- No message of the chat is newer.
unfoldable pub is_newest : Table → Row → Bool
is_newest [] m = true
is_newest (q ∷ t) m =
    (not (same_text q.jid m.jid) || leb_ℤ q.timestamp m.timestamp) && is_newest t m

abbrev raise : Option ℤ → ℤ → ℤ
raise none k = k
raise (some m) k = max_ℤ m k

-- The greatest timestamp of a chat.
top : Text → Table → Option ℤ
top j [] = none
top j (q ∷ t) = if same_text q.jid j then some (raise (top j t) q.timestamp) else top j t

lookup_group : Text → List Group → Option ℤ
lookup_group j [] = none
lookup_group j (g ∷ gs) = if same_text g.jid j then some g.max_timestamp else lookup_group j gs

lookup_group-add_group :
    (q : Row) (j : Text) (gs : List Group)
    → lookup_group j (add_group q gs) ≡ (
        if same_text q.jid j
        then some (raise (lookup_group j gs) q.timestamp)
        else lookup_group j gs)
unfolding lookup_group add_group
lookup_group-add_group q j [] = ground arith
lookup_group-add_group q j (g ∷ gs) = ground (
  arith,
  same_text_iff q.jid g.jid,
  same_text_iff q.jid j,
  same_text_iff g.jid j,
  lookup_group-add_group q j gs,
)

lookup_group-latest : (j : Text) (t : Table) → lookup_group j (latest t) ≡ top j t
unfolding lookup_group latest top
lookup_group-latest j [] = refl
lookup_group-latest j (q ∷ t) = rw (lookup_group-add_group, lookup_group-latest j t)

-- The groups have distinct chats.
abbrev IsGrouped : List Group → Type 0
IsGrouped [] = Unit
IsGrouped (g ∷ gs) = (lookup_group g.jid gs ≡ none) × IsGrouped gs

add_group-IsGrouped : (q : Row) (gs : List Group) → IsGrouped gs → IsGrouped (add_group q gs)
unfolding add_group lookup_group
add_group-IsGrouped q [] h = (refl, tt)
add_group-IsGrouped q (g ∷ gs) h = ground (
  arith,
  same_text_iff q.jid g.jid,
  lookup_group-add_group q g.jid gs,
  add_group-IsGrouped q gs h.1,
)

latest-IsGrouped : (t : Table) → IsGrouped (latest t)
unfolding latest
latest-IsGrouped [] = tt
latest-IsGrouped (q ∷ t) = add_group-IsGrouped q (latest t) (latest-IsGrouped t)

abbrev at_top : Option ℤ → Row → Bool
at_top none m = false
at_top (some k) m = eqb_ℤ k m.timestamp

join_row-alone : (m : Row) (gs : List Group) → lookup_group m.jid gs ≡ none → join_row m gs ≡ []
unfolding join_row lookup_group
join_row-alone m [] h = refl
join_row-alone m (g ∷ gs) h = ground (arith, join_row-alone m gs)

join_row_lem :
    (m : Row) (gs : List Group)
    → IsGrouped gs
    → join_row m gs ≡ (if at_top (lookup_group m.jid gs) m then m ∷ [] else [])
unfolding join_row lookup_group
join_row_lem m [] h = refl
join_row_lem m (g ∷ gs) h =
    ground (arith, same_text_iff g.jid m.jid, join_row-alone m gs, join_row_lem m gs h.1)

join_lem :
    (t : Table) (gs : List Group)
    → IsGrouped gs
    → join t gs ≡ select (λ m. at_top (lookup_group m.jid gs) m) t
unfolding join select
join_lem [] gs h = refl
join_lem (m ∷ t) gs h = ground (arith, join_row_lem m gs h, join_lem t gs h)

abbrev Covers : Option ℤ → Row → Type 0
Covers none m = ⊥
Covers (some k) m = m.timestamp ≤ℤ k

Covers-cons : (q m : Row) (t : Table) → Covers (top m.jid t) m → Covers (top m.jid (q ∷ t)) m
unfolding top
Covers-cons q m t h = ground arith

Covers-self : (q : Row) (t : Table) → Covers (top q.jid (q ∷ t)) q
unfolding top
Covers-self q t = ground (arith, same_text_refl q.jid)

Covers-All :
    (q : Row) (t u : Table)
    → All (λ m. Covers (top m.jid t) m) u
    → All (λ m. Covers (top m.jid (q ∷ t)) m) u
Covers-All q t [] h = tt
Covers-All q t (m ∷ u) h = (Covers-cons q m t h.0, Covers-All q t u h.1)

-- The greatest timestamp of a chat is none less than that of any of its messages.
top-Covers : (t : Table) → All (λ m. Covers (top m.jid t) m) t
top-Covers [] = tt
top-Covers (q ∷ t) = (Covers-self q t, Covers-All q t t (top-Covers t))

abbrev below_or_at : Option ℤ → Row → Bool
below_or_at none m = true
below_or_at (some k) m = leb_ℤ k m.timestamp

is_newest-top : (t : Table) (m : Row) → is_newest t m ≡ below_or_at (top m.jid t) m
unfolding is_newest top
is_newest-top [] m = refl
is_newest-top (q ∷ t) m = ground (arith, is_newest-top t m)

at_top-below : (o : Option ℤ) (m : Row) → Covers o m → at_top o m ≡ below_or_at o m
at_top-below none m h = absurd h
at_top-below (some k) m h = ground arith

select_congr : (p p' : Row → Bool) (t : Table) → All (λ m. p m ≡ p' m) t → select p t ≡ select p' t
unfolding select
select_congr p p' [] h = refl
select_congr p p' (m ∷ t) h = rw (h.0, select_congr p p' t h.1)

agree :
    (t u : Table)
    → All (λ m. Covers (top m.jid t) m) u
    → All (λ m. at_top (lookup_group m.jid (latest t)) m ≡ is_newest t m) u
agree t [] h = tt
agree t (m ∷ u) h =
    (rw (lookup_group-latest, is_newest-top) (at_top-below (top m.jid t) m h.0), agree t u h.1)

-- Where the query succeeds, the chat list holds, newest first, exactly the messages that have no
-- newer one in their chat; of a chat whose newest messages share one timestamp it holds every one
-- of these.
pub get_recent_chats_lem :
    (e : Engine) (t : Table)
    → get_recent_chats e none t ≡ ok (scan_messages (e.order (select (is_newest t) t)))
unfolding get_recent_chats
get_recent_chats_lem e t =
    ap (λ (u : Table). ok (scan_messages (e.order u)))
      (join_lem t (latest t) (latest-IsGrouped t) ∙ select_congr _ _ t (agree t t (top-Covers t)))
