-- ===== src/Auth/Users.antt =====
-- Whom an authenticator lets in.
use go_gost_x.Prelude.{
  ◌≡◌, refl, sym, ap, ◌∙◌, false, [], ◌∷◌, ◌++◌, Option, none, some, if◌then◌else◌,
}
use go_gost_x.Text.{Text, text_eq, lookup, insert, lookup-insert}
use go_gost_x.Auth.{Kvs, copy, Loaders, load, load_fails, or_empty, reload, accepts, authenticate}

-- The last value of a user, or `d`.
abbrev pub latest : Text → Option Text → Kvs → Option Text
latest user d [] = d
latest user d ((k, v) ∷ kvs) = latest user (if text_eq k user then some v else d) kvs

latest-append :
    (user : Text) (d : Option Text) (m n : Kvs)
    → latest user d (m ++ n) ≡ latest user (latest user d m) n
latest-append user d [] n = refl
latest-append user d ((k, v) ∷ m) n = latest-append user (if text_eq k user then some v else d) m n

lookup-copy :
    (user : Text) (m kvs : Kvs) → lookup user (copy m kvs) ≡ latest user (lookup user m) kvs
unfolding copy
lookup-copy user m [] = refl
lookup-copy user m ((k, v) ∷ kvs) =
    lookup-copy user (insert k v m) kvs ∙ ap (λ d. latest user d kvs) (lookup-insert k user v m)

authenticate-lookup :
    (kvs : Kvs) (user password : Text)
    → (authenticate kvs user password).1 ≡ accepts password (lookup user kvs)
unfolding authenticate
authenticate-lookup [] user password = refl
authenticate-lookup (kv ∷ kvs) user password = refl

-- After a reload whose loaders fail nowhere and that does not panic, a user is let in exactly when
-- the last of its passwords, those of the options first and then the loaded ones, is empty or the
-- given one.
pub reload-authenticate :
    (trim_space : Text → Text) (kvs own : Kvs) (l : Loaders) (m : Option Kvs) (user password : Text)
    → load trim_space l ≡ some m
    → load_fails trim_space l ≡ false
    → (n : Kvs) × (reload trim_space kvs own l ≡ some n)
      × ((authenticate n user password).1
          ≡ accepts password (latest user none (own ++ or_empty trim_space m)))
unfolding reload
reload-authenticate trim_space kvs own l m user password e f =
    rw (e, f)
      (
        copy (copy [] own) (or_empty trim_space m),
        refl,
        authenticate-lookup (copy (copy [] own) (or_empty trim_space m)) user password
            ∙ ap (accepts password) (
                lookup-copy user (copy [] own) (or_empty trim_space m)
                ∙ ap (λ d. latest user d (or_empty trim_space m)) (lookup-copy user [] own)
                ∙ sym (latest-append user none own (or_empty trim_space m))),
      )
