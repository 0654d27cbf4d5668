-- ===== src/Service/Avatars/Fetched.antt =====
-- daemon/dbus/service.go: the goroutine of `scheduleAvatarFetch` on the client's
-- `GetProfilePictureInfo` and `DownloadFile`.
use kha_app.Prelude.{
  ℕ, ◌≡◌, ◌≢◌, ◌↔◌, refl, sym, ◌∙◌, inl, inr, Bool-cases, Bool, true, false, Option, none, some,
  List, [], ◌∷◌, ◌++◌, Text, arith, codes, has_suffix, if◌then◌else◌,
}
use kha_app.Prelude.Result.{Result, ok, err, Outcome, ◌>>=◌}
use kha_app.Prelude.Dict.{mem}
use kha_app.Protocol.Calls.{PictureParams, get_profile_picture_info, Response, download_file}
use kha_app.Protocol.Calls.Downloads.{Delivers, download_file-Delivers}
use kha_app.Service.State.{Service, Signal, avatar_updated, emit}
use kha_app.Service.Avatars.{
  write_file, FetchAnswers, has_url, all_done, leaves_part, fetch_body, fetch_avatar,
}

-- What lies behind the client: `types.ParseJID`, whatsmeow's picture of a JID (the URL, `none`
-- where there is no picture), and the request for a URL with its response.
pub record Net : Type 0 where
  pub parse_jid : Text → Result Text
  pub picture : Text → PictureParams → Result (Option Text)
  pub request : Text → Outcome
  pub respond : Text → Result Response

-- The cache path of the chat, the two calls of the file system, whether a write that fails has
-- begun the file, and the clock at the write.
pub record Disk : Type 0 where
  pub path : Result Text
  pub mkdir : Outcome
  pub write : Outcome
  pub begins_file : Bool
  pub now : ℕ

abbrev url_of : Result (Option Text) → Text
url_of (err e) = []
url_of (ok none) = []
url_of (ok (some url)) = url

abbrev failure : Result (List ℕ) → Outcome
failure (err e) = some e
failure (ok bytes) = none

-- The answers that the goroutine gets from the client for a chat.
unfoldable pub fetch_answers : Net → Disk → Text → FetchAnswers
unfolding get_profile_picture_info download_file
fetch_answers n d jid =
    let info = get_profile_picture_info n.parse_jid n.picture jid in
    record {
      path = d.path;
      picture_url = info;
      download = failure (download_file (n.request (url_of info)) (n.respond (url_of info)));
      mkdir = d.mkdir;
      write = d.write;
      begins_file = d.begins_file;
      now = d.now;
    }

append-ne : (s : Signal) (xs : List Signal) → xs ≢ xs ++ s ∷ []
append-ne s [] e = cc
append-ne s (x ∷ xs) e = append-ne s xs cc

last_of : (s t : Signal) (xs : List Signal) → xs ++ s ∷ [] ≡ xs ++ t ∷ [] → s ≡ t
last_of s t [] e = cc
last_of s t (x ∷ xs) e = last_of s t xs cc

-- Every step of the goroutine works.
record Works (a : FetchAnswers) (path : Text) : Type 0 where
  has_path : a.path ≡ ok path
  has_picture : has_url a.picture_url ≡ true
  has_bytes : all_done a ≡ true

fetch_body-Works :
    (jid path : Text) (a : FetchAnswers) (m : Service)
    → ((fetch_body jid a m).signals ≡ m.signals ++ avatar_updated jid path ∷ []) ↔ Works a path
unfolding fetch_body emit
fetch_body-Works jid path a m =
    (told a.path refl, (λ w. rw (w.has_path, w.has_picture, w.has_bytes) refl))
  where
    signals-part :
        (p : Text) (b : Bool)
        → (if b then record m { files = write_file p a.now m.files } else m).signals ≡ m.signals
    signals-part p true = refl
    signals-part p false = refl

    told :
        (r : Result Text)
        → a.path ≡ r
        → (fetch_body jid a m).signals ≡ m.signals ++ avatar_updated jid path ∷ []
        → Works a path
    told (err x) e h =
        absurd (append-ne (avatar_updated jid path) m.signals (rw (e, fetch_body) at h))
    told (ok p) e h = elim (Bool-cases (has_url a.picture_url)) [
      | inr not_so ↦
          absurd (append-ne (avatar_updated jid path) m.signals (rw (e, not_so, fetch_body) at h))
      | inl u ↦ elim (Bool-cases (all_done a)) [
        | inr not_so ↦ absurd (
            append-ne (avatar_updated jid path) m.signals
              (sym (signals-part p (leaves_part a)) ∙ (rw (e, u, not_so, fetch_body) at h)))
        | inl d ↦
            let same =
              last_of (avatar_updated jid p) (avatar_updated jid path) m.signals
                (rw (e, u, d, fetch_body) at h) in
            record { has_path = e ∙ cc same; has_picture = u; has_bytes = d }
      ]
    ]

signals-fetch_avatar :
    (jid : Text) (a : FetchAnswers) (m : Service)
    → mem jid m.fetches ≡ true
    → (fetch_avatar jid a m).signals ≡ (fetch_body jid a m).signals
unfolding fetch_avatar
signals-fetch_avatar jid a m runs = rw runs refl

-- What has to happen for a chat's picture to be stored under a path and told.
pub record Arrives (n : Net) (d : Disk) (jid path url parsed : Text) (bytes : List ℕ) : Type 0 where
  pub has_path : d.path ≡ ok path
  pub is_jid : n.parse_jid jid ≡ ok parsed
  pub has_picture : n.picture parsed (record { is_community = false }) ≡ ok (some url)
  pub has_url : url ≢ []
  pub has_bytes : Delivers (n.request url) (n.respond url) bytes
  pub has_directory : d.mkdir ≡ none
  pub is_written : d.write ≡ none

abbrev pub SomeArrives : Net → Disk → Text → Text → Type 0
SomeArrives n d jid path =
    (parsed : Text) × (url : Text) × (bytes : List ℕ) × Arrives n d jid path url parsed bytes

picture_info_lem :
    (n : Net) (jid : Text)
    → get_profile_picture_info n.parse_jid n.picture jid
      ≡ n.parse_jid jid >>= (λ parsed. n.picture parsed (record { is_community = false }))
unfolding get_profile_picture_info
picture_info_lem n jid = parsed_as (n.parse_jid jid)
  where
    parsed_as :
        (r : Result Text)
        → (r >>= (λ parsed. n.picture parsed (
            if has_suffix jid (codes "@g.us")
            then record { is_community = false }
            else record { is_community = false })))
          ≡ r >>= (λ parsed. n.picture parsed (record { is_community = false }))
    parsed_as (err x) = refl
    parsed_as (ok parsed) = ground arith

ok_of :
    {A : Type 0} {B : Type 0} (r : Result A) (f : A → Result B) (b : B)
    → r >>= f ≡ ok b
    → (x : A) × ((r ≡ ok x) × (f x ≡ ok b))
ok_of (err e) f b h = cc
ok_of (ok x) f b h = (x, (refl, h))

has_url_lem :
    (r : Result (Option Text))
    → has_url r ≡ true
    → (url : Text) × ((r ≡ ok (some url)) × (url ≢ []))
has_url_lem (err e) h = cc
has_url_lem (ok none) h = cc
has_url_lem (ok (some [])) h = cc
has_url_lem (ok (some (c ∷ url))) h = (c ∷ url, (refl, λ e. cc))

has_url-ne-nil : (url : Text) → url ≢ [] → has_url (ok (some url)) ≡ true
has_url-ne-nil [] h = absurd (h refl)
has_url-ne-nil (c ∷ url) h = refl

all_done_lem :
    (a : FetchAnswers)
    → all_done a ≡ true
    → (a.download ≡ none) × (a.mkdir ≡ none) × (a.write ≡ none)
all_done_lem a h = ground arith

failure_lem : (r : Result (List ℕ)) → failure r ≡ none → (bytes : List ℕ) × (r ≡ ok bytes)
failure_lem (err e) h = cc
failure_lem (ok bytes) h = (bytes, refl)

Works-Arrives :
    (n : Net) (d : Disk) (jid path : Text)
    → Works (fetch_answers n d jid) path
    → SomeArrives n d jid path
unfolding fetch_answers
Works-Arrives n d jid path w =
    let (url, (told, filled)) =
      has_url_lem (get_profile_picture_info n.parse_jid n.picture jid) w.has_picture in
    let (parsed, (is_jid, asked)) =
      ok_of (n.parse_jid jid) _ (some url) (sym (picture_info_lem n jid) ∙ told) in
    let (down, made, stored) = all_done_lem (fetch_answers n d jid) w.has_bytes in
    let (bytes, got) =
      failure_lem (download_file (n.request url) (n.respond url)) (rw told at down) in
    (
      parsed,
      url,
      bytes,
      record {
        has_path = w.has_path;
        is_jid = is_jid;
        has_picture = asked;
        has_url = filled;
        has_bytes = (download_file-Delivers (n.request url) (n.respond url) bytes).0 got;
        has_directory = made;
        is_written = stored;
      },
    )

info-Arrives :
    (n : Net) (d : Disk) (jid path url parsed : Text) (bytes : List ℕ)
    → Arrives n d jid path url parsed bytes
    → get_profile_picture_info n.parse_jid n.picture jid ≡ ok (some url)
info-Arrives n d jid path url parsed bytes a = picture_info_lem n jid ∙ rw a.is_jid a.has_picture

Arrives-Works :
    (n : Net) (d : Disk) (jid path url parsed : Text) (bytes : List ℕ)
    → Arrives n d jid path url parsed bytes
    → Works (fetch_answers n d jid) path
unfolding fetch_answers
Arrives-Works n d jid path url parsed bytes a =
    let info = info-Arrives n d jid path url parsed bytes a in
    let got = (download_file-Delivers (n.request url) (n.respond url) bytes).1 a.has_bytes in
    record {
      has_path = a.has_path;
      has_picture = rw info (has_url-ne-nil url a.has_url);
      has_bytes = rw (info, got, a.has_directory, a.is_written) refl;
    }

-- When the goroutine that fetches a chat's picture runs to its end, it emits `AvatarUpdated` with a
-- path exactly if this is the cache path of the chat, the chat's JID parses, whatsmeow answers with
-- a picture whose URL is not empty, the request for this URL delivers bytes with a status code from
-- 200 to 299, and the directory and the file are written.
pub fetch_avatar-Arrives :
    (n : Net) (d : Disk) (jid path : Text) (m : Service)
    → mem jid m.fetches ≡ true
    → ((fetch_avatar jid (fetch_answers n d jid) m).signals
        ≡ m.signals ++ avatar_updated jid path ∷ [])
      ↔ SomeArrives n d jid path
fetch_avatar-Arrives n d jid path m runs =
    let told = signals-fetch_avatar jid (fetch_answers n d jid) m runs in
    let works = fetch_body-Works jid path (fetch_answers n d jid) m in
    (
      (λ h. Works-Arrives n d jid path (works.0 (sym told ∙ h))),
      (λ (parsed, url, bytes, a). told ∙ works.1 (Arrives-Works n d jid path url parsed bytes a)),
    )
