-- ===== src/Main/Stores.antt =====
-- Where the two databases lie.
use mathlib.Core.List.{reverse, reverse-cons, reverse-append, reverse-reverse, append_assoc}
use kha_app.Prelude.{
  ◌≡◌, refl, ap, ◌∙◌, Bool, true, false, List, [], ◌∷◌, ◌++◌, arith, Text, codes, is_empty,
  same_text, has_code, has_code-append, if◌then◌else◌,
}
use kha_app.Prelude.Result.{Result, ok, err, ◌>>=◌}
use kha_app.Service.Paths.{slash, clean, join, join_elems}
use kha_app.Service.Paths.Clean.{
  NoSlash, IsName, join-name, join_lem, join_elems-not_empty, join_elems-snoc, is_empty-append,
  clean-name,
}
use kha_app.Service.Paths.Normal.{is_empty-clean, clean-clean, clean-snoc_slash, clean-clean-slash}
use kha_app.Main.{DataEnv, store_in_home, resolve_store_path, up_to_slash, dir, message_store_path}

khaapp-IsName : IsName (codes "khaapp")
unfolding has_code same_text
khaapp-IsName = record { no_slash = refl; not_empty = refl; not_dot = refl; not_dot_dot = refl }

session-IsName : IsName (codes "session.db")
unfolding has_code same_text
session-IsName = record { no_slash = refl; not_empty = refl; not_dot = refl; not_dot_dot = refl }

messages-IsName : IsName (codes "messages.db")
unfolding has_code same_text
messages-IsName = record { no_slash = refl; not_empty = refl; not_dot = refl; not_dot_dot = refl }

NoSlash-reverse : (s : Text) → NoSlash s → NoSlash (reverse s)
unfolding has_code
NoSlash-reverse [] h = refl
NoSlash-reverse (c ∷ s) h = rw reverse-cons (rw has_code-append (ground (arith, NoSlash-reverse s)))

up_to_slash-append : (s t : Text) → NoSlash s → up_to_slash (s ++ slash ∷ t) ≡ slash ∷ t
unfolding has_code
up_to_slash-append [] t h = refl
up_to_slash-append (c ∷ s) t h = ground (arith, up_to_slash-append s t)

reverse-slash : (d f : Text) → reverse (d ++ slash ∷ f) ≡ reverse f ++ slash ∷ reverse d
reverse-slash d f =
    rw (reverse-append d (slash ∷ f), reverse-cons slash f)
      (append_assoc (reverse f) (slash ∷ []) (reverse d))

-- The directory of a file.
dir-slash : (d f : Text) → is_empty d ≡ false → NoSlash f → dir (d ++ slash ∷ f) ≡ clean d
unfolding dir
dir-slash d f h n =
    ap clean (
      ap reverse (
        ap up_to_slash (reverse-slash d f)
        ∙ up_to_slash-append (reverse f) (reverse d) (NoSlash-reverse f n))
      ∙ reverse-cons slash (reverse d)
      ∙ ap (λ (t : Text). t ++ slash ∷ []) (reverse-reverse d))
    ∙ clean-snoc_slash d h

-- The directory of the databases, as elements of a path.
abbrev data_dir : Text → List Text → Text
data_dir d es = join ((d ∷ es) ++ codes "khaapp" ∷ [])

session_in :
    (d : Text) (es : List Text)
    → is_empty d ≡ false
    → join (((d ∷ es) ++ codes "khaapp" ∷ []) ++ codes "session.db" ∷ [])
      ≡ data_dir d es ++ slash ∷ codes "session.db"
session_in d es h =
    join-name (codes "khaapp") (codes "session.db") (d ∷ es) (join_elems-not_empty d es h)
      khaapp-IsName session-IsName

data_dir_lem :
    (d : Text) (es : List Text)
    → is_empty d ≡ false
    → data_dir d es ≡ clean (join_elems (d ∷ es) ++ slash ∷ codes "khaapp")
data_dir_lem d es h =
    let start = join_elems-not_empty d es h in
    join_lem ((d ∷ es) ++ codes "khaapp" ∷ []) _
      (join_elems-snoc (codes "khaapp") (d ∷ es) refl start)
      (is_empty-append _ (slash ∷ codes "khaapp") start)

join_elems-one : (p : Text) → is_empty p ≡ false → join_elems (p ∷ []) ≡ p
unfolding join_elems
join_elems-one p h = rw h refl

join-pair :
    (p f : Text) → is_empty p ≡ false → IsName f → join (p ∷ f ∷ []) ≡ clean (p ++ slash ∷ f)
join-pair p f h n =
    join_lem (p ∷ f ∷ []) _
      (join_elems-snoc f (p ∷ []) n.not_empty (join_elems-not_empty p [] h)
        ∙ ap (λ (t : Text). t ++ slash ∷ f) (join_elems-one p h))
      (is_empty-append p (slash ∷ f) h)

-- The second database beside the first, below a directory of the program.
message_store_path-beside :
    (b : Text)
    → is_empty b ≡ false
    → message_store_path (clean (b ++ slash ∷ codes "khaapp") ++ slash ∷ codes "session.db")
      ≡ clean (b ++ slash ∷ codes "khaapp") ++ slash ∷ codes "messages.db"
unfolding message_store_path
message_store_path-beside b h =
    let x = b ++ slash ∷ codes "khaapp" in
    let full = is_empty-append b (slash ∷ codes "khaapp") h in
    ap (λ (t : Text). join (t ∷ codes "messages.db" ∷ []))
      (dir-slash (clean x) (codes "session.db") (is_empty-clean x) session-IsName.no_slash
        ∙ clean-clean x)
    ∙ join-pair (clean x) (codes "messages.db") (is_empty-clean x) messages-IsName
    ∙ clean-clean-slash x (codes "messages.db") full messages-IsName
    ∙ clean-name b (codes "khaapp") (codes "messages.db") h khaapp-IsName messages-IsName

-- The paths of the two databases.
abbrev pub both : Text → Result (Text × Text)
both store_path = ok (store_path, message_store_path store_path)

abbrev pub both_in : Text → Result (Text × Text)
both_in directory =
    ok (directory ++ slash ∷ codes "session.db", directory ++ slash ∷ codes "messages.db")

both_below :
    (d : Text) (es : List Text)
    → is_empty d ≡ false
    → both (join (((d ∷ es) ++ codes "khaapp" ∷ []) ++ codes "session.db" ∷ []))
      ≡ both_in (join ((d ∷ es) ++ codes "khaapp" ∷ []))
both_below d es h = rw (session_in d es h) (
    rw (data_dir_lem d es h)
      (rw (message_store_path-beside (join_elems (d ∷ es)) (join_elems-not_empty d es h)) refl))

-- The directory of a home directory that is not empty.
abbrev pub directory_at_home : Text → Result Text
directory_at_home home =
    if is_empty home
    then err (codes "user home directory is empty")
    else ok (join (home ∷ codes ".local" ∷ codes "share" ∷ codes "khaapp" ∷ []))

abbrev pub directory_of : DataEnv → Result Text
directory_of e =
    if is_empty e.data_home
    then e.home_dir >>= directory_at_home
    else ok (join (e.data_home ∷ codes "khaapp" ∷ []))

home_or_error :
    (b : Bool) (home : Text)
    → is_empty home ≡ b
    → ((if b
          then err (codes "user home directory is empty")
          else ok (
              join
                (home ∷ codes ".local" ∷ codes "share" ∷ codes "khaapp" ∷ codes "session.db" ∷ [])))
        >>= both)
      ≡ ((if b
            then err (codes "user home directory is empty")
            else ok (join (home ∷ codes ".local" ∷ codes "share" ∷ codes "khaapp" ∷ [])))
          >>= both_in)
home_or_error true home h = refl
home_or_error false home h = both_below home (codes ".local" ∷ codes "share" ∷ []) h

at_home :
    (r : Result Text) → ((r >>= store_in_home) >>= both) ≡ ((r >>= directory_at_home) >>= both_in)
at_home (ok home) = home_or_error (is_empty home) home refl
at_home (err x) = refl

either_way :
    (b : Bool) (d : Text) (r : Result Text)
    → is_empty d ≡ b
    → ((if b then r >>= store_in_home else ok (join (d ∷ codes "khaapp" ∷ codes "session.db" ∷ [])))
        >>= both)
      ≡ ((if b then r >>= directory_at_home else ok (join (d ∷ codes "khaapp" ∷ []))) >>= both_in)
either_way true d r h = at_home r
either_way false d r h = both_below d [] h

-- The two databases are `session.db` and `messages.db` directly in one directory: `khaapp` in
-- XDG_DATA_HOME where that is set, and else below `.local/share` of a home directory that is not
-- empty. An empty home directory is refused, and an error in finding it is passed on.
pub message_store_path-resolve_store_path :
    (e : DataEnv) → (resolve_store_path e >>= both) ≡ (directory_of e >>= both_in)
unfolding resolve_store_path
message_store_path-resolve_store_path e =
    either_way (is_empty e.data_home) e.data_home e.home_dir refl
