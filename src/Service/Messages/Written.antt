-- ===== src/Service/Messages/Written.antt =====
-- daemon/dbus/service.go: where `DownloadMedia` writes a file.
use mathlib.Core.List.{append_assoc}
use kha_app.Prelude.{
  ℕ, ◌≡◌, refl, ap, sym, ◌∙◌, Bool, true, false, none, some, List, [], ◌∷◌, ◌++◌, arith, Text,
  codes, is_empty,
}
use kha_app.Prelude.Result.{ok}
use kha_app.Storage.Message.{StoredMessage}
use kha_app.Storage.Table.{Table}
use kha_app.Protocol.Media.{media_filename}
use kha_app.Service.Paths.{
  slash, is_rooted, dot_dot, render, clean, join_elems, join, Env, media_cache_dir,
}
use kha_app.Service.Paths.Clean.{
  IsName, stack_of, join_lem, join-name, join_elems-not_empty, join_elems-snoc, stack_of-slash,
  is_rooted-append, is_empty-append, clean-name,
}
use kha_app.Service.Paths.Normal.{is_empty-clean, clean-clean-slash}
use kha_app.Service.Paths.Inside.{stack_of-dot_dot, media-IsName, with_media_home}
use kha_app.Service.Messages.{DownloadAnswers, download_to, download_in}

-- The directory of all media.
abbrev pub media_dir : Text → Text
media_dir cache_home = join (cache_home ∷ codes "khaapp" ∷ codes "media" ∷ [])

-- Two steps down, one up and one down are two steps down.
clean-up :
    (p g f : Text)
    → is_empty p ≡ false
    → IsName g
    → IsName f
    → clean ((p ++ slash ∷ g) ++ slash ∷ (dot_dot ++ slash ∷ f)) ≡ clean (p ++ slash ∷ f)
unfolding clean stack_of
clean-up p g f h hg hf =
    let r = is_rooted p in
    let q = (p ++ slash ∷ g) ++ slash ∷ dot_dot in
    ap clean (sym (append_assoc (p ++ slash ∷ g) (slash ∷ dot_dot) (slash ∷ f)))
    ∙ rw
        (
          is_rooted-append q (slash ∷ f) (
              is_empty-append (p ++ slash ∷ g) (slash ∷ dot_dot) (is_empty-append p (slash ∷ g) h)),
          is_rooted-append (p ++ slash ∷ g) (slash ∷ dot_dot) (is_empty-append p (slash ∷ g) h),
          is_rooted-append p (slash ∷ g) h,
          is_rooted-append p (slash ∷ f) h,
        )
        (ap (render r) (
          stack_of-slash r q f hf
          ∙ ap (λ (s : List Text). f ∷ s) (stack_of-dot_dot r p g hg)
          ∙ sym (stack_of-slash r p f hf)))

module _ (cache_home : Text) (h : is_empty cache_home ≡ false) where
  path_of_media : Text
  path_of_media = join_elems (cache_home ∷ codes "khaapp" ∷ []) ++ slash ∷ codes "media"

  above_not_empty : is_empty (join_elems (cache_home ∷ codes "khaapp" ∷ [])) ≡ false
  above_not_empty = join_elems-not_empty cache_home (codes "khaapp" ∷ []) h

  media_dir-clean : media_dir cache_home ≡ clean path_of_media
  unfolding path_of_media
  media_dir-clean =
      join_lem (cache_home ∷ codes "khaapp" ∷ codes "media" ∷ []) path_of_media
        (join_elems-snoc (codes "media") (cache_home ∷ codes "khaapp" ∷ []) refl above_not_empty)
        (is_empty-append (join_elems (cache_home ∷ codes "khaapp" ∷ [])) (slash ∷ codes "media")
          above_not_empty)

  media_dir-not_empty : is_empty (media_dir cache_home) ≡ false
  media_dir-not_empty = rw media_dir-clean (is_empty-clean path_of_media)

  -- A name in the directory of all media.
  clean-media_dir :
      (f : Text)
      → IsName f
      → clean (media_dir cache_home ++ slash ∷ f) ≡ media_dir cache_home ++ slash ∷ f
  unfolding path_of_media
  clean-media_dir f hf = rw media_dir-clean (
      clean-clean-slash path_of_media f
        (is_empty-append (join_elems (cache_home ∷ codes "khaapp" ∷ [])) (slash ∷ codes "media")
          above_not_empty)
        hf
      ∙ clean-name (join_elems (cache_home ∷ codes "khaapp" ∷ [])) (codes "media") f above_not_empty
          media-IsName hf)

  join-two :
      (d f : Text)
      → is_empty d ≡ false
      → is_empty f ≡ false
      → join (d ∷ f ∷ []) ≡ clean (d ++ slash ∷ f)
  unfolding join join_elems
  join-two d f hd hf = ground (arith, is_empty-append d (slash ∷ f) hd)

-- A file name, as it is or with "../" before it.
abbrev pub climbing : Bool → Text → Text
climbing false f = f
climbing true f = dot_dot ++ slash ∷ f

-- The chat's media directory, or the one above it.
abbrev pub place : Bool → Text → Text → Text
place false cache_home jid = media_dir cache_home ++ slash ∷ jid
place true cache_home jid = media_dir cache_home

file_path_lem :
    (up : Bool) (cache_home jid f : Text)
    → is_empty cache_home ≡ false
    → IsName jid
    → IsName f
    → join ((media_dir cache_home ++ slash ∷ jid) ∷ climbing up f ∷ [])
      ≡ place up cache_home jid ++ slash ∷ f
file_path_lem false cache_home jid f h hj hf =
    let full = media_dir-not_empty cache_home h in
    join-two cache_home h (media_dir cache_home ++ slash ∷ jid) f
      (is_empty-append (media_dir cache_home) (slash ∷ jid) full) hf.not_empty
    ∙ (clean-name (media_dir cache_home) jid f full hj hf
        ∙ ap (λ (s : Text). s ++ slash ∷ f) (clean-media_dir cache_home h jid hj))
file_path_lem true cache_home jid f h hj hf =
    let full = media_dir-not_empty cache_home h in
    join-two cache_home h (media_dir cache_home ++ slash ∷ jid) (dot_dot ++ slash ∷ f)
      (is_empty-append (media_dir cache_home) (slash ∷ jid) full) refl
    ∙ (clean-up (media_dir cache_home) jid f full hj hf ∙ clean-media_dir cache_home h f hf)

media_cache_dir-chat :
    (e : Env) (jid : Text)
    → is_empty e.cache_home ≡ false
    → IsName jid
    → media_cache_dir e jid ≡ ok (media_dir e.cache_home ++ slash ∷ jid)
media_cache_dir-chat e jid h hj =
    with_media_home e jid h
    ∙ ap ok (
        join-name (codes "media") jid (e.cache_home ∷ codes "khaapp" ∷ [])
          (join_elems-not_empty e.cache_home (codes "khaapp" ∷ []) h) media-IsName hj)

-- Where XDG_CACHE_HOME is set, the JID of the chat is a plain name, and the directory, the download
-- and the write work, a media file whose name is plain is written directly in the chat's media
-- directory; but where the name that `MediaFilename` makes of the message's id is "../" and a plain
-- name, the file is written above the chat's directory.
pub written-download_in :
    (e : Env) (a : DownloadAnswers) (message_id : Text) (msg : StoredMessage) (t : Table)
    (jid f : Text) (up : Bool) (content : List ℕ)
    → is_empty e.cache_home ≡ false
    → IsName jid
    → IsName f
    → a.media_dir ≡ media_cache_dir e jid
    → media_filename a.extensions_by_type msg ≡ climbing up f
    → a.mkdir ≡ none
    → a.download ≡ ok content
    → a.write ≡ none
    → (download_in a message_id msg a.media_dir t).written
      ≡ some (place up e.cache_home jid ++ slash ∷ f, content)
unfolding download_to
written-download_in e a message_id msg t jid f up content h hj hf dir name made got wrote =
    rw (dir, media_cache_dir-chat e jid h hj)
      (rw (made, got, wrote) (rw (name, file_path_lem up e.cache_home jid f h hj hf) refl))
