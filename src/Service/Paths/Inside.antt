-- ===== src/Service/Paths/Inside.antt =====
-- Where the files of the caches lie.
use kha_app.Prelude.{
  ℕ, ◌≡◌, refl, ap, sym, ◌∙◌, Bool, false, List, [], ◌∷◌, ◌++◌, arith, ◌==◌, Text, codes, is_empty,
  same_text, has_code, has_code-append,
}
use kha_app.Prelude.Result.{ok}
use kha_app.Service.Paths.{
  slash, is_rooted, split_slash, dot_dot, push, push_all, render, clean, join_elems, join, Env,
  sanitize_code, sanitized, avatar_file_name, avatar_cache_path, media_cache_dir,
}
use kha_app.Service.Paths.Clean.{
  IsName, stack_of, stack_of-append, join_lem, join-name, join_elems-not_empty, join_elems-snoc,
  stack_of-slash, is_rooted-append, is_empty-append,
}

sanitize_code-ne : (c : ℕ) → (slash == sanitize_code c) ≡ false
unfolding sanitize_code
sanitize_code-ne c = ground arith

sanitized-no_slash : (jid : Text) → has_code slash (sanitized jid) ≡ false
unfolding sanitized has_code
sanitized-no_slash [] = refl
sanitized-no_slash (c ∷ s) = ground (arith, sanitize_code-ne c, sanitized-no_slash s)

png-IsName : (s : Text) → has_code slash s ≡ false → IsName (s ++ codes ".png")
unfolding same_text has_code
png-IsName [] h = record { no_slash = refl; not_empty = refl; not_dot = refl; not_dot_dot = refl }
png-IsName (a ∷ []) h = record {
  no_slash = rw (has_code-append slash (a ∷ []) (codes ".png"), h);
  not_empty = refl;
  not_dot = ground arith;
  not_dot_dot = ground arith;
}
png-IsName (a ∷ b ∷ []) h = record {
  no_slash = rw (has_code-append slash (a ∷ b ∷ []) (codes ".png"), h);
  not_empty = refl;
  not_dot = ground arith;
  not_dot_dot = ground arith;
}
png-IsName (a ∷ b ∷ c ∷ s) h = record {
  no_slash = rw (has_code-append slash (a ∷ b ∷ c ∷ s) (codes ".png"), h);
  not_empty = refl;
  not_dot = ground arith;
  not_dot_dot = ground arith;
}

avatar_file_name-IsName : (jid : Text) → IsName (avatar_file_name jid)
unfolding avatar_file_name
avatar_file_name-IsName jid = png-IsName (sanitized jid) (sanitized-no_slash jid)

avatars-IsName : IsName (codes "avatars")
unfolding has_code same_text
avatars-IsName = record { no_slash = refl; not_empty = refl; not_dot = refl; not_dot_dot = refl }

with_cache_home :
    (e : Env) (jid : Text)
    → is_empty e.cache_home ≡ false
    → avatar_cache_path e jid
      ≡ ok (join (e.cache_home ∷ codes "khaapp" ∷ codes "avatars" ∷ avatar_file_name jid ∷ []))
unfolding avatar_cache_path
with_cache_home e jid h = rw h

-- Where XDG_CACHE_HOME is set, for every JID, with slashes and dots too, the picture's file lies
-- directly in the avatars directory of the cache, under a name without a slash.
pub avatar_cache_path_lem :
    (e : Env) (jid : Text)
    → is_empty e.cache_home ≡ false
    → (avatar_cache_path e jid
        ≡ ok (
            join (e.cache_home ∷ codes "khaapp" ∷ codes "avatars" ∷ [])
            ++ slash ∷ avatar_file_name jid))
      × (has_code slash (avatar_file_name jid) ≡ false)
avatar_cache_path_lem e jid h =
    let name = avatar_file_name-IsName jid in
    let es = e.cache_home ∷ codes "khaapp" ∷ [] in
    (
      with_cache_home e jid h
          ∙ ap ok (
              join-name (codes "avatars") (avatar_file_name jid) es
                (join_elems-not_empty e.cache_home (codes "khaapp" ∷ []) h) avatars-IsName name),
      name.no_slash,
    )

pub media-IsName : IsName (codes "media")
unfolding has_code same_text
media-IsName = record { no_slash = refl; not_empty = refl; not_dot = refl; not_dot_dot = refl }

khaapp-IsName : IsName (codes "khaapp")
unfolding has_code same_text
khaapp-IsName = record { no_slash = refl; not_empty = refl; not_dot = refl; not_dot_dot = refl }

push_all-dot_dot :
    (r : Bool) (f : Text) (stack : List Text)
    → IsName f
    → push_all r (f ∷ stack) (split_slash dot_dot) ≡ stack
unfolding push_all push split_slash same_text
push_all-dot_dot r f stack h = ground (arith, h.not_dot_dot)

pub stack_of-dot_dot :
    (r : Bool) (p f : Text)
    → IsName f
    → stack_of r ((p ++ slash ∷ f) ++ slash ∷ dot_dot) ≡ stack_of r p
stack_of-dot_dot r p f h =
    stack_of-append r (p ++ slash ∷ f) dot_dot
    ∙ ap (λ (s : List Text). push_all r s (split_slash dot_dot)) (stack_of-slash r p f h)
    ∙ push_all-dot_dot r f (stack_of r p) h

-- A parent after a name takes the name away.
clean-dot_dot :
    (p f : Text)
    → is_empty p ≡ false
    → IsName f
    → clean ((p ++ slash ∷ f) ++ slash ∷ dot_dot) ≡ clean p
unfolding clean stack_of
clean-dot_dot p f h hf =
    rw
      (
        is_rooted-append (p ++ slash ∷ f) (slash ∷ dot_dot) (is_empty-append p (slash ∷ f) h),
        is_rooted-append p (slash ∷ f) h,
      )
      (ap (render (is_rooted p)) (stack_of-dot_dot (is_rooted p) p f hf))

pub with_media_home :
    (e : Env) (jid : Text)
    → is_empty e.cache_home ≡ false
    → media_cache_dir e jid ≡ ok (join (e.cache_home ∷ codes "khaapp" ∷ codes "media" ∷ jid ∷ []))
unfolding media_cache_dir
with_media_home e jid h = rw h

-- Where XDG_CACHE_HOME is set, the media directory of the JID ".." is the directory above that of
-- all media, the program's whole cache, as the JID is taken as it is.
pub media_cache_dir-dot_dot :
    (e : Env)
    → is_empty e.cache_home ≡ false
    → media_cache_dir e dot_dot ≡ ok (join (e.cache_home ∷ codes "khaapp" ∷ []))
media_cache_dir-dot_dot e h =
    let es = e.cache_home ∷ [] in
    let above = e.cache_home ∷ codes "khaapp" ∷ [] in
    let start = join_elems-not_empty e.cache_home [] h in
    let full = join_elems-not_empty e.cache_home (codes "khaapp" ∷ []) h in
    let deep = join_elems-not_empty e.cache_home (codes "khaapp" ∷ codes "media" ∷ []) h in
    with_media_home e dot_dot h
    ∙ ap ok (
        join_lem (above ++ codes "media" ∷ dot_dot ∷ []) _
          (join_elems-snoc dot_dot (above ++ codes "media" ∷ []) refl deep
            ∙ ap (λ (t : Text). t ++ slash ∷ dot_dot)
                (join_elems-snoc (codes "media") above refl full))
          (is_empty-append _ (slash ∷ dot_dot) (is_empty-append _ (slash ∷ codes "media") full))
        ∙ clean-dot_dot (join_elems above) (codes "media") full media-IsName
        ∙ sym (join_lem above _ refl full))
