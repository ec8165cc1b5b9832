-- ===== src/Access/Basic/Fits.antt =====
-- Which passwords `check_password` allows (`check_credentials_common` of
-- bob-access/src/authenticator/basic.rs).
use bob.Prelude.{
  Bool, List, Option, Option-cases, String, ap, eq_iff, false, if◌then◌else◌, inl, inr, none, refl,
  some, subst, sym, true, ℕ, ◌==◌, ◌↔◌, ◌∙◌, ◌≡◌,
}
use Prim.Native.String.{◌++◌}
use bob.Map.{string_eq, bytes_beq, bytes_iff}
use bob.Access.{allowed, refused, unauthorized_request, Permissions, User, permissions_of}
use bob.Access.Users.{hash_of, password_or_default, default_password}
use bob.Access.Basic.{check_password}

pub allowed-if :
    (c : Bool) (q p : Permissions)
    → ((if c then allowed q else refused unauthorized_request) ≡ allowed p) ↔ ((c ≡ true) × (q ≡ p))
allowed-if true q p = (λ e. (refl, cc e), λ s. ap allowed s.1)
allowed-if false q p = (λ e. absurd (cc e), λ s. absurd (cc (s.0)))

module _ (from_hex : String → Option (List ℕ)) (sha512 : String → List ℕ) where
  -- The password of a configured user; without one the hash counts, and without both it is empty.
  pub data Fits (salt password : String) : Option String → Option String → Type 0 where
    by_password : (hash : Option String) → Fits salt password (some password) hash
    by_hash :
        (h : String)
        → from_hex h ≡ some (sha512 (password ++ salt))
        → Fits salt password none (some h)
    by_default : password ≡ "" → Fits salt password none none

  Fits-password :
      (salt password q : String) (hex : Option String)
      → Fits salt password (some q) hex
      → q ≡ password
  Fits-password salt password q hex (by_password hash) = refl

  Fits-hash :
      (salt password x : String)
      → Fits salt password none (some x)
      → from_hex x ≡ some (sha512 (password ++ salt))
  Fits-hash salt password x (by_hash h e) = e

  Fits-default : (salt password : String) → Fits salt password none none → password ≡ ""
  Fits-default salt password (by_default e) = e

  check_password-password :
      (salt password q : String) (user : User)
      → user.password ≡ some q
      → check_password sha512 salt password user
        ≡ (if q == password then allowed (permissions_of user) else refused unauthorized_request)
  unfolding check_password
  check_password-password salt password q user a = simp (check_password, a)

  check_password-hash :
      (salt password : String) (bytes : List ℕ) (user : User)
      → user.password ≡ none
      → user.password_hash ≡ some bytes
      → check_password sha512 salt password user ≡ (
          if bytes_beq (sha512 (password ++ salt)) bytes
          then allowed (permissions_of user)
          else refused unauthorized_request)
  unfolding check_password
  check_password-hash salt password bytes user a b = simp (check_password, a, b)

  -- With which user `check_password` allows anything, for a user that has this password and hash.
  pub check_password-Fits :
      (salt password : String) (user : User) (pw hex : Option String) (hash : Option (List ℕ))
      (p : Permissions)
      → hash_of from_hex hex ≡ some hash
      → user.password ≡ password_or_default hash pw
      → user.password_hash ≡ hash
      → (check_password sha512 salt password user ≡ allowed p)
        ↔ (Fits salt password pw hex × (permissions_of user ≡ p))
  unfolding check_password password_or_default hash_of default_password
  check_password-Fits salt password user (some q) hex hash p h a b =
      let (to, back) = allowed-if (q == password) (permissions_of user) p in
      let test = eq_iff q password in
      rw (check_password-password salt password q user (a ∙ stored hash)) (
        λ e. (
          subst (λ k. Fits salt password (some k) hex) (sym (test.0 (to e).0)) (by_password hex),
          (to e).1,
        ),
        λ s. back (test.1 (Fits-password salt password q hex s.0), s.1),
      )
    where
      stored : (k : Option (List ℕ)) → password_or_default k (some q) ≡ some q
      stored none = refl
      stored (some k) = refl
  check_password-Fits salt password user none none hash p h a b =
      let (to, back) = allowed-if ("" == password) (permissions_of user) p in
      let test = eq_iff "" password in
      let none_here : none ≡ hash = cc h in
      rw
        (check_password-password salt password "" user
          (a ∙ ap (λ k. password_or_default k none) (sym none_here)))
        (
          λ e. (by_default (sym (test.0 (to e).0)), (to e).1),
          λ s. back (test.1 (sym (Fits-default salt password s.0)), s.1),
        )
  check_password-Fits salt password user none (some x) hash p h a b =
      elim (Option-cases (from_hex x)) [
        | inl n ↦ absurd (cc (rw (hash_of, n) at h))
        | inr (bytes, f) ↦
            let (to, back) =
              allowed-if (bytes_beq (sha512 (password ++ salt)) bytes) (permissions_of user) p in
            let test = bytes_iff (sha512 (password ++ salt)) bytes in
            let here : some bytes ≡ hash = cc (rw (hash_of, f) at h) in
            rw
              (check_password-hash salt password bytes user
                (a ∙ ap (λ k. password_or_default k none) (sym here)) (b ∙ sym here))
              (
                λ e. (by_hash x (rw f (ap some (sym (test.0 (to e).0)))), (to e).1),
                λ s. back (test.1 (cc (f, Fits-hash salt password x s.0)), s.1),
              )
      ]
