-- ===== src/Auth/Accounts.antt =====
-- internal/auth/auth.go: what `Register` does to the accounts, and the sessions that it and `Login`
-- open.
use firego.Base.{
  ℕ, ◌≡◌, refl, sym, ap, ◌∙◌, Bool, true, false, not, ◌||◌, Bool-cases, Option-cases, Option, none,
  some, Bytes, lookup, delete-insert, length, ltb, ◌⊎◌, inl, inr, arith,
}
use firego.Jwt.Token.{Codec}
use firego.Auth.Email.{trim_space, to_lower, match_email, random_hex}
use firego.Auth.Service.{
  User, StoredUser, Service, Bcrypt, Draw, AuthError, weak_input, hash_failed, email_taken, save,
  new_user, add_user, remove_user, issue_token, store_user, unless_taken, register,
}

module _ (k : Codec) (b : Bcrypt) where
  -- How a registration ends: refused with nothing done, undone when it could not be saved, or done.
  abbrev pub Ending : Bytes → Bytes → Draw → ℕ → Bool → Service → Type 0
  Ending text password draw now disk s =
      let email = trim_space text in
      ((e : AuthError) × (register k b text password draw now disk s ≡ (inl e, s)))
      ⊎ ((hash : Bytes) × (match_email email ≡ true)
          × (b.generate password draw.salt ≡ some hash)
          × (lookup (to_lower email) s.users ≡ none)
          × (register k b text password draw now disk s
              ≡ store_user k b (new_user k b email hash draw now) (to_lower email) draw now disk s))

  hashed-Ending :
      (text password : Bytes) (draw : Draw) (now : ℕ) (disk : Bool) (s : Service)
      → (not (match_email (trim_space text)) || ltb (length password) 6) ≡ false
      → Ending text password draw now disk s
  unfolding register
  hashed-Ending text password draw now disk s g =
      let email = trim_space text in
      elim (Option-cases (b.generate password draw.salt)) [
        | inl bad ↦ inl (hash_failed, rw (g, bad) refl)
        | inr (hash, good) ↦
            let go : Option StoredUser → (AuthError ⊎ User × Bytes) × Service =
              λ o. unless_taken k b o email hash draw now disk s in
            elim (Option-cases (lookup (to_lower email) s.users)) [
              | inl free ↦ inr (hash, ground (arith, g), good, free, rw (g, good) (ap go free))
              | inr (u, taken) ↦ inl (email_taken, rw (g, good) (ap go taken))
            ]
      ]

  pub register-Ending :
      (text password : Bytes) (draw : Draw) (now : ℕ) (disk : Bool) (s : Service)
      → Ending text password draw now disk s
  unfolding register
  register-Ending text password draw now disk s =
      elim (Bool-cases (not (match_email (trim_space text)) || ltb (length password) 6)) [
        | inl weak ↦ inl (weak_input, rw weak refl)
        | inr good ↦ hashed-Ending text password draw now disk s good
      ]

  undo_lem :
      (u : StoredUser) (key : Bytes) (s : Service)
      → lookup key s.users ≡ none
      → lookup u.user.uid s.by_uid ≡ none
      → remove_user k b u key (add_user k b u key s) ≡ s
  undo_lem u key s free fresh =
      rw (delete-insert key u s.users free, delete-insert u.user.uid u s.by_uid fresh) refl

  store_user-error :
      (u : StoredUser) (key : Bytes) (draw : Draw) (now : ℕ) (disk : Bool) (s : Service)
      (e : AuthError)
      → lookup key s.users ≡ none
      → lookup u.user.uid s.by_uid ≡ none
      → (store_user k b u key draw now disk s).0 ≡ inl e
      → (store_user k b u key draw now disk s).1 ≡ s
  store_user-error u key draw now true s e free fresh h = absurd cc
  store_user-error u key draw now false s e free fresh h = undo_lem u key s free fresh

  store_user-saved :
      (u : StoredUser) (key : Bytes) (draw : Draw) (now : ℕ) (disk : Bool) (s : Service)
      (reply : User × Bytes)
      → (store_user k b u key draw now disk s).0 ≡ inr reply
      → store_user k b u key draw now disk s
        ≡ (inr (u.user, issue_token k b u draw now s.secret), save (add_user k b u key s))
  store_user-saved u key draw now true s reply h = refl
  store_user-saved u key draw now false s reply h = absurd cc

  -- A registration that returns an error leaves the accounts, the file and the revoked tokens as
  -- they were, if the uid that it draws is new.
  pub register-error :
      (text password : Bytes) (draw : Draw) (now : ℕ) (disk : Bool) (s : Service) (e : AuthError)
      → lookup (random_hex draw.uid_bytes) s.by_uid ≡ none
      → (register k b text password draw now disk s).0 ≡ inl e
      → (register k b text password draw now disk s).1 ≡ s
  register-error text password draw now disk s e fresh h =
      elim (register-Ending text password draw now disk s) [
        | inl (e', stays) ↦ ap (λ r. r.1) stays
        | inr (hash, _, _, free, ends) ↦
            let u = new_user k b (trim_space text) hash draw now in
            let key = to_lower (trim_space text) in
            ap (λ r. r.1) ends
            ∙ store_user-error u key draw now disk s e free fresh (sym (ap (λ r. r.0) ends) ∙ h)
      ]

  -- What a registration that returns no error did.
  abbrev pub Registered : Bytes → Bytes → Draw → ℕ → Bool → Service → Bytes → Type 0
  Registered text password draw now disk s hash =
      let email = trim_space text in
      let u = new_user k b email hash draw now in
      (match_email email ≡ true)
      × (b.generate password draw.salt ≡ some hash)
      × (lookup (to_lower email) s.users ≡ none)
      × (register k b text password draw now disk s ≡ (
        inr (u.user, issue_token k b u draw now s.secret),
        save (add_user k b u (to_lower email) s),
      ))

  pub register_inv :
      (text password : Bytes) (draw : Draw) (now : ℕ) (disk : Bool) (s : Service)
      (reply : User × Bytes)
      → (register k b text password draw now disk s).0 ≡ inr reply
      → (hash : Bytes) × Registered text password draw now disk s hash
  register_inv text password draw now disk s reply h =
      elim (register-Ending text password draw now disk s) [
        | inl (e', stays) ↦ absurd (ground (arith, stays))
        | inr (hash, valid, good, free, ends) ↦
            let u = new_user k b (trim_space text) hash draw now in
            let key = to_lower (trim_space text) in
            let kept =
              store_user-saved u key draw now disk s reply (sym (ap (λ r. r.0) ends) ∙ h) in
            (hash, (valid, good, free, ends ∙ kept))
      ]
