-- ===== src/Storage/Query/Pages.antt =====
-- What a page of a chat holds.
pub mod Split
use mathlib.Core.Bool.{Bool-set}
use mathlib.Core.Logic.Or
use mathlib.Core.List.{Mem, Perm, mem-cons, mem-cons_self, mem-cons_of_mem, not-mem-nil}
use mathlib.Core.List.Perm
use kha_app.Prelude.{
  ℕ, zero, suc, ◌≡◌, refl, Bool, true, none, List, [], ◌∷◌, ◌++◌, ◌≤ℤ◌, inl, inr, Bool-cases, ℤ,
  pos, negsuc, pos_part, Text, codes, same_text_iff, take, drop, select, All,
}
use kha_app.Prelude.Result.{ok}
use kha_app.Storage.Message.{Row}
use kha_app.Storage.Table.{Table}
use kha_app.Storage.Query.{
  Engine, IsDescending, found_in, limited, page, search_by_jid, scan_messages,
}

pub All-of_mem {ℓ κ} :
    {A : Type ℓ} (P : A → Type κ) (xs : List A) → ((a : A) → Mem a xs → P a) → All P xs
All-of_mem P [] h = tt
All-of_mem P (x ∷ xs) h = (h x mem-cons_self, All-of_mem P xs (λ a m. h a (mem-cons_of_mem _ m)))

pub select_sound : (p : Row → Bool) (q : Row) (t : Table) → Mem q (select p t) → p q ≡ true
unfolding select
select_sound p q [] m = absurd (not-mem-nil m)
select_sound p q (r ∷ t) m = elim (Bool-cases (p r)) [
  | inl e ↦ Or.elim (Bool-set _ _) (mem-cons.0 (rw e at m)) (λ x. rw x e) (select_sound p q t)
  | inr e ↦ select_sound p q t (rw e at m)
]

module _ (P : Row → Type 0) where
  All-take : (n : ℕ) (t : Table) → All P t → All P (take n t)
  All-take zero t h = tt
  All-take (suc n) [] h = tt
  All-take (suc n) (q ∷ t) h = (h.0, All-take n t h.1)

  All-drop : (n : ℕ) (t : Table) → All P t → All P (drop n t)
  All-drop zero t h = h
  All-drop (suc n) [] h = tt
  All-drop (suc n) (q ∷ t) h = All-drop n t h.1

  All-page : (limit offset : ℤ) (t : Table) → All P t → All P (page limit offset t)
  unfolding page
  All-page (pos n) offset t h = All-take n _ (All-drop (pos_part offset) t h)
  All-page (negsuc n) offset t h = All-drop (pos_part offset) t h

take-IsDescending : (n : ℕ) (t : Table) → IsDescending t → IsDescending (take n t)
take-IsDescending zero t h = tt
take-IsDescending (suc n) [] h = tt
take-IsDescending (suc n) (q ∷ t) h =
    (All-take (λ r. r.timestamp ≤ℤ q.timestamp) n t h.0, take-IsDescending n t h.1)

drop-IsDescending : (n : ℕ) (t : Table) → IsDescending t → IsDescending (drop n t)
drop-IsDescending zero t h = h
drop-IsDescending (suc n) [] h = tt
drop-IsDescending (suc n) (q ∷ t) h = drop-IsDescending n t h.1

page-IsDescending :
    (limit offset : ℤ) (t : Table) → IsDescending t → IsDescending (page limit offset t)
unfolding page
page-IsDescending (pos n) offset t h =
    take-IsDescending n _ (drop-IsDescending (pos_part offset) t h)
page-IsDescending (negsuc n) offset t h = drop-IsDescending (pos_part offset) t h

limited-page : (limit : ℤ) (t : Table) → limited limit t ≡ page limit (pos 0) t
unfolding page
limited-page limit t = refl

-- Where the query succeeds, a search returns of all rows of the chat that match, and no others,
-- the newest within the limit, newest first, the query standing between two `%`.
pub search_by_jid_lem :
    (e : Engine) (jid query : Text) (limit : ℤ) (t : Table)
    → let pattern = codes "%" ++ (query ++ codes "%") in
      (found : Table) × Perm found (select (found_in e jid pattern) t)
      × IsDescending found
      × (search_by_jid e none jid query limit t ≡ ok (scan_messages (limited limit found)))
      × IsDescending (limited limit found)
      × All (λ q. found_in e jid pattern q ≡ true) (limited limit found)
unfolding search_by_jid
search_by_jid_lem e jid query limit t =
    let pattern = codes "%" ++ (query ++ codes "%") in
    let matches = select (found_in e jid pattern) t in
    let found = e.order matches in
    (
      found,
      e.order_perm matches,
      e.order_descending matches,
      refl,
      rw (limited-page limit found)
          (page-IsDescending limit (pos 0) found (e.order_descending matches)),
      rw (limited-page limit found) (
          All-page _ limit (pos 0) found (
            All-of_mem _ found (λ q m.
              select_sound (found_in e jid pattern) q t ((Perm.mem_iff (e.order_perm _)).0 m)))),
    )
