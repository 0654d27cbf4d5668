-- ===== src/Storage/Query/Pages/Split.antt =====
-- A page of a chat as a part of the chat's messages, newest first.
use mathlib.Core.List.{Perm, append-nil, perm_middle}
use mathlib.Core.List.Perm
use kha_app.Prelude.{
  ℕ, ◌≤◌, zero, suc, ◌≡◌, ◌≢◌, ◌⊎◌, refl, sym, ap, ◌∙◌, inl, inr, Bool, true, not, Bool-cases, none,
  [], ◌∷◌, ◌++◌, map, ℤ, pos, negsuc, arith, Text, same_text, same_text_iff, length, take, drop,
  select, All,
}
use kha_app.Prelude.Result.{ok}
use kha_app.Storage.Message.{Row, scan_message}
use kha_app.Storage.Table.{Table}
use kha_app.Storage.Query.Pages.{All-of_mem, select_sound}
use kha_app.Storage.Query.{Engine, IsDescending, in_chat, page, scan_messages, get_by_jid}

-- What is left out before the page: as many rows as the offset says, if there are so many.
abbrev Skips : ℤ → Table → Table → Type 0
Skips (pos n) before rest = (length before ≡ n) ⊎ ((length before ≤ n) × (rest ≡ []))
Skips (negsuc n) before rest = before ≡ []

-- How far the page goes: as many rows as the limit says, if there are so many, and to the end where
-- the limit is negative.
abbrev Fills : ℤ → Table → Table → Type 0
Fills (pos n) shown after = (length shown ≡ n) ⊎ ((length shown ≤ n) × (after ≡ []))
Fills (negsuc n) shown after = after ≡ []

-- The rows shown of a chat.
pub record IsPage (limit offset : ℤ) (chat shown : Table) : Type 0 where
  pub before : Table
  pub after : Table
  pub splits : chat ≡ before ++ (shown ++ after)
  pub skips : Skips offset before (shown ++ after)
  pub fills : Fills limit shown after

-- The chat's rows in a table, newest first.
pub record IsChat (jid : Text) (t chat : Table) : Type 0 where
  pub others : Table
  pub parts : Perm t (chat ++ others)
  pub of_chat : All (λ q. q.jid ≡ jid) chat
  pub not_of_chat : All (λ q. q.jid ≢ jid) others
  pub descends : IsDescending chat

take-drop : (n : ℕ) (t : Table) → t ≡ take n t ++ drop n t
take-drop zero t = refl
take-drop (suc n) [] = refl
take-drop (suc n) (q ∷ t) = ap (λ u. q ∷ u) (take-drop n t)

take_or_end :
    (n : ℕ) (t : Table) → (length (take n t) ≡ n) ⊎ ((length (take n t) ≤ n) × (drop n t ≡ []))
take_or_end zero t = inl refl
take_or_end (suc n) [] = inr (omega arith, refl)
take_or_end (suc n) (q ∷ t) = ground (arith, take_or_end n t)

IsPage-limited :
    (limit offset : ℤ) (before rest chat : Table)
    → chat ≡ before ++ rest
    → Skips offset before rest
    → IsPage limit offset chat (page limit (pos 0) rest)
unfolding page
IsPage-limited (pos n) offset before rest chat e h = record {
  before = before;
  after = drop n rest;
  splits = e ∙ ap (λ u. before ++ u) (take-drop n rest);
  skips = rw (sym (take-drop n rest)) h;
  fills = take_or_end n rest;
}
IsPage-limited (negsuc n) offset before rest chat e h = record {
  before = before;
  after = [];
  splits = e ∙ ap (λ u. before ++ u) (sym (append-nil rest));
  skips = rw (append-nil rest) h;
  fills = refl;
}

page-IsPage : (limit offset : ℤ) (t : Table) → IsPage limit offset t (page limit offset t)
unfolding page
page-IsPage limit (pos n) t =
    IsPage-limited limit (pos n) (take n t) (drop n t) t (take-drop n t) (take_or_end n t)
page-IsPage limit (negsuc n) t = IsPage-limited limit (negsuc n) [] t t refl refl

module _ (jid : Text) where
  outside : Row → Bool
  outside q = not (same_text jid q.jid)

  select-parts : (t : Table) → Perm t (select (in_chat jid) t ++ select outside t)
  unfolding select outside
  select-parts [] = Perm.nil
  select-parts (q ∷ t) = elim (Bool-cases (same_text jid q.jid)) [
    | inl e ↦ rw e (Perm.cons q (select-parts t))
    | inr e ↦ rw e (
        Perm.trans (Perm.cons q (select-parts t))
          (Perm.symm (perm_middle (select (in_chat jid) t) (select outside t))))
  ]

selected :
    (p : Row → Bool) (P : Row → Type 0) (t : Table)
    → ((q : Row) → p q ≡ true → P q)
    → All P (select p t)
unfolding select
selected p P [] h = tt
selected p P (q ∷ t) h = elim (Bool-cases (p q)) [
  | inl e ↦ rw e (h q e, selected p P t h)
  | inr e ↦ rw e (selected p P t h)
]

ordered-IsChat :
    (e : Engine) (jid : Text) (t : Table) → IsChat jid t (e.order (select (in_chat jid) t))
unfolding outside
ordered-IsChat e jid t =
    let found = select (in_chat jid) t in
    record {
      others = select (outside jid) t;
      parts =
          Perm.trans (select-parts jid t)
            (Perm.append_right (select (outside jid) t) (Perm.symm (e.order_perm found)));
      of_chat =
          All-of_mem (λ q. q.jid ≡ jid) (e.order found)
            (λ q m. sym (
              (same_text_iff jid q.jid).0
                (select_sound (in_chat jid) q t ((Perm.mem_iff (e.order_perm found)).0 m))));
      not_of_chat =
          selected (outside jid) (λ q. q.jid ≢ jid) t
            (λ q h. ground (arith, same_text_iff jid q.jid));
      descends = e.order_descending found;
    }

-- Where the query succeeds, the messages returned are a page of the chat's messages. The table is
-- split into all rows of the chat, newest first, and rows of other chats. Of the chat's rows the
-- page leaves out the first, as many as the offset says or all, and none for a negative offset,
-- then holds the next, as many as the limit says or all that are left, and all of them for a
-- negative limit.
pub get_by_jid_lem :
    (e : Engine) (jid : Text) (limit offset : ℤ) (t : Table)
    → (chat : Table) × (shown : Table) × IsChat jid t chat
      × IsPage limit offset chat shown
      × (get_by_jid e none jid limit offset t ≡ ok (map scan_message shown))
unfolding get_by_jid scan_messages
get_by_jid_lem e jid limit offset t =
    let chat = e.order (select (in_chat jid) t) in
    (chat, page limit offset chat, ordered-IsChat e jid t, page-IsPage limit offset chat, refl)
