-- ===== src/Apps/Failures.antt =====
-- internal/apps/manager.go: what a creation that fails leaves behind.
use firego.Base.{
  ℕ, ◌≡◌, refl, sym, ap, subst, Bool, true, false, Option, none, some, List, Bytes, Dict, same,
  lookup, delete, lookup-insert, lookup-delete, delete-insert, ◌∙◌, inl, inr,
}
use firego.Jwt.Token.{Codec}
use firego.Apps.Manager.{
  App, AppFiles, AppError, Manager, remove_all, files_at, files_under, register_app, create,
  create_app,
}
use firego.Apps.Histories.{create_app_ends}

-- Two managers that differ at most in what the directory of an id holds.
abbrev pub SameBut : Bytes → Manager → Manager → Type 0
SameBut id m m' =
    (m'.apps ≡ m.apps)
    × (m'.registry ≡ m.registry)
    × (m'.master_secret ≡ m.master_secret)
    × ((j : Bytes) → same id j ≡ false → files_under j m' ≡ files_under j m)

lookup-remove_all :
    (id j : Bytes) (left : Option AppFiles) (dirs : Dict AppFiles)
    → same id j ≡ false
    → lookup j (remove_all id left (delete id dirs)) ≡ lookup j dirs
lookup-remove_all id j none dirs apart =
    rw (lookup-delete id j (delete id dirs), apart) (rw (lookup-delete id j dirs, apart) refl)
lookup-remove_all id j (some files) dirs apart =
    rw (lookup-insert id j files (delete id dirs), apart) (rw (lookup-delete id j dirs, apart) refl)

module _ (k : Codec) where
  register_app-error :
      (o : Option App) (id : Bytes) (left : Option AppFiles) (disk : Bool) (m : Manager)
      (e : AppError)
      → lookup id m.apps ≡ none
      → (register_app k o id left disk m).0 ≡ inl e
      → SameBut id m (register_app k o id left disk m).1
  unfolding files_under
  register_app-error none id left disk m e free h = (refl, refl, refl, λ j apart. refl)
  register_app-error (some a) id left true m e free h = absurd cc
  register_app-error (some a) id left false m e free h =
      let back = delete-insert id a m.apps free in
      (
        back,
        refl,
        refl,
        λ j apart.
            ap (λ apps. files_at (lookup j apps) (lookup j (remove_all id left (delete id m.dirs))))
              back
            ∙ ap (files_at (lookup j m.apps)) (lookup-remove_all id j left m.dirs apart),
      )

  -- A creation that returns an error, whichever it is, leaves the running apps, the registry on disk,
  -- the master secret and the files under every other id as they were.
  pub create_app-error :
      (id name : Bytes) (key_bytes : List ℕ) (now : ℕ) (made : Bytes → Bool)
      (left : Option AppFiles) (disk : Bool) (m : Manager) (e : AppError)
      → (create_app k id name key_bytes now made left disk m).0 ≡ inl e
      → SameBut id m (create_app k id name key_bytes now made left disk m).1
  unfolding create
  create_app-error id name key_bytes now made left disk m e h =
      elim (create_app_ends k id name key_bytes now made left disk m) [
        | inl (e', ends) ↦
            subst (λ r. SameBut id m r.1) (sym ends) (refl, refl, refl, λ j apart. refl)
        | inr (valid, free, ends) ↦
            subst (λ r. SameBut id m r.1) (sym ends)
              (register_app-error _ id left disk m e free (sym (ap (λ r. r.0) ends) ∙ h))
      ]
