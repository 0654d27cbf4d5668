-- ===== src/Service/Avatars/Downloads.antt =====
-- At most one download of a picture runs for each chat.
use kha_app.Prelude.{
  ◌≡◌, inl, inr, Bool-cases, Bool, true, false, List, [], ◌∷◌, arith, Text, if◌then◌else◌,
}
use kha_app.Prelude.Dict.{mem, remove, mem-remove}
use kha_app.Service.State.{Service, emit}
use kha_app.Service.Avatars.{schedule_avatar_fetch, FetchAnswers, fetch_body, fetch_avatar}

abbrev pub Distinct : List Text → Type 0
Distinct [] = Unit
Distinct (j ∷ s) = (mem j s ≡ false) × Distinct s

-- The marks in the map are the chats whose download runs, and none runs twice.
pub record Tracked (m : Service) : Type 0 where
  pub marks : (j : Text) → mem j m.avatar_downloads ≡ mem j m.fetches
  pub distinct : Distinct m.fetches

remove-Distinct : (k : Text) (s : List Text) → Distinct s → Distinct (remove k s)
unfolding remove
remove-Distinct k [] h = tt
remove-Distinct k (j ∷ s) h = ground (arith, mem-remove k j s, remove-Distinct k s h.1)

-- Scheduling a download keeps the marks exact, and does nothing for a chat whose download runs.
pub schedule_avatar_fetch-Tracked :
    (jid : Text) (m : Service) → Tracked m → Tracked (schedule_avatar_fetch jid m)
unfolding schedule_avatar_fetch
schedule_avatar_fetch-Tracked jid m h = elim (Bool-cases (mem jid m.avatar_downloads)) [
  | inl e ↦ rw e h
  | inr e ↦
      rw e (record {
        marks = λ j. rw (h.marks j);
        distinct = (ground (arith, h.marks jid), h.distinct);
      })
]

fetches-fetch_body :
    (jid : Text) (a : FetchAnswers) (m : Service)
    → ((fetch_body jid a m).fetches ≡ m.fetches)
      × ((fetch_body jid a m).avatar_downloads ≡ m.avatar_downloads)
unfolding fetch_body emit
fetches-fetch_body jid a m = ground arith

pub removed-Tracked :
    (jid : Text) (m n : Service)
    → n.fetches ≡ m.fetches
    → n.avatar_downloads ≡ m.avatar_downloads
    → Tracked m
    → Tracked (record n {
      avatar_downloads = remove jid n.avatar_downloads;
      fetches = remove jid n.fetches;
    })
removed-Tracked jid m n f d h = record {
  marks = λ j.
      ground (arith, mem-remove jid j n.avatar_downloads, mem-remove jid j n.fetches, h.marks j);
  distinct = rw f (remove-Distinct jid m.fetches h.distinct);
}

-- A download that ends, on whichever path, removes its mark and leaves every other one.
pub fetch_avatar-Tracked :
    (jid : Text) (a : FetchAnswers) (m : Service) → Tracked m → Tracked (fetch_avatar jid a m)
unfolding fetch_avatar
fetch_avatar-Tracked jid a m h = tracked (mem jid m.fetches) (
    removed-Tracked jid m (fetch_body jid a m) (fetches-fetch_body jid a m).0
      (fetches-fetch_body jid a m).1 h)
  where
    tracked : (b : Bool) {n : Service} → Tracked n → Tracked (if b then n else m)
    tracked true k = k
    tracked false k = h

-- What changes neither the marks nor the downloads.
pub Tracked-same :
    (m n : Service)
    → n.fetches ≡ m.fetches
    → n.avatar_downloads ≡ m.avatar_downloads
    → Tracked m
    → Tracked n
Tracked-same m n f d h = record { marks = λ j. rw (f, d) (h.marks j); distinct = rw f h.distinct }
